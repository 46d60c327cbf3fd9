-- ===== src/Tools/Snapshot.antt =====
-- The catalogue of a turn: `Snapshot` and `rebuildSnapshot` of pkg/tool/manager.go, and its cache in
-- the session, pkg/session/snapshot_cache.go. A fetch runs in three parts, since other goroutines
-- change the managers meanwhile: it reads the key, it builds, it stores.
use hugen.Prelude.{
  ℕ, ◌+◌, ◌==◌, Bool, ◌&&◌, Option, none, some, List, [], ◌∷◌, ◌++◌, if◌then◌else◌, Result, ok,
  fail,
}
use hugen.Prelude.Text.{Text}
use hugen.Tools.{Tool, ToolError, Provider, Manager, collect_merged_providers, tool_gen, policy_gen}

-- An extension: the number its `Generation` gives and its `FilterTools`, where it has them.
pub record Extension : Type 0 where
  pub generation : Option ℕ
  pub filter_tools : Option (List Tool → List Tool)

pub record Generations : Type 0 where
  pub tool : ℕ
  pub policy : ℕ
  pub ext : ℕ

abbrev pub same_generations : Generations → Generations → Bool
same_generations a b = a.tool == b.tool && (a.policy == b.policy && a.ext == b.ext)

unfoldable pub extension_generation_sum : List Extension → ℕ
extension_generation_sum [] = 0
extension_generation_sum (x ∷ exts) = elim x.generation [
  | none ↦ extension_generation_sum exts
  | some g ↦ g + extension_generation_sum exts
]

unfoldable pub filter_chain : List Extension → List Tool → List Tool
filter_chain [] tools = tools
filter_chain (x ∷ exts) tools = elim x.filter_tools [
  | none ↦ filter_chain exts tools
  | some f ↦ filter_chain exts (f tools)
]

unfoldable pub listed_tools : List (Text × Provider) → List Tool
listed_tools [] = []
listed_tools ((name, p) ∷ ps) = elim p.list [
  | ok tools ↦ tools ++ listed_tools ps
  | fail e ↦ listed_tools ps
]

unfoldable pub list_errors : List (Text × Provider) → List ToolError
list_errors [] = []
list_errors ((name, p) ∷ ps) = elim p.list [
  | ok tools ↦ list_errors ps
  | fail e ↦ e ∷ list_errors ps
]

pub data Fetch : Type 0 where
  idle : Fetch
  keyed : Generations → Fetch
  built : Generations → List Tool → Fetch

-- The managers, the extensions, the valid cache if there is one, and the fetch that runs.
pub record World : Type 0 where
  pub chain : List Manager
  pub exts : List Extension
  pub cache : Option (Generations × List Tool)
  pub fetch : Fetch

unfoldable pub current : List Manager → List Extension → Generations
unfolding tool_gen policy_gen extension_generation_sum
current chain exts = record {
  tool = tool_gen chain;
  policy = policy_gen chain;
  ext = extension_generation_sum exts;
}

-- The answer of a valid cache under the current key.
unfoldable pub cached : World → Option (List Tool)
unfolding current
cached w = elim w.cache [
  | none ↦ none
  | some (gens, tools) ↦ if same_generations gens (current w.chain w.exts) then some tools else none
]

-- The three parts of `fetchSnapshot` behind a miss.
unfoldable pub read_key : World → World
unfolding current
read_key w = record w { fetch = keyed (current w.chain w.exts) }

unfoldable pub store : World → World
store w = elim w.fetch [
  | idle ↦ w
  | keyed gens ↦ w
  | built gens tools ↦ record w { cache = some (gens, tools); fetch = idle }
]

-- Over `slices.SortFunc` by name and `SanitizeLLMSchema`, which gives `none` where it fails.
module _ (sort : List Tool → List Tool) (sanitize : Text → Option Text) where
  unfoldable pub sanitized : List Tool → List Tool
  sanitized [] = []
  sanitized (t ∷ ts) =
      elim (sanitize t.arg_schema) [ none ↦ t | some c ↦ record t { arg_schema = c } ]
      ∷ sanitized ts

  -- The tools, and the errors of the providers that could not list theirs.
  unfoldable pub rebuild_snapshot : List Manager → List Tool × List ToolError
  unfolding collect_merged_providers listed_tools list_errors sanitized
  rebuild_snapshot chain =
      let merged = collect_merged_providers chain in
      (sanitized (sort (listed_tools merged)), list_errors merged)

  -- What a fetch returns: an error where a provider failed, else the filtered tools.
  unfoldable pub build : List Manager → List Extension → Result (List ToolError) (List Tool)
  unfolding rebuild_snapshot filter_chain
  build chain exts =
      let (tools, errors) = rebuild_snapshot chain in
      elim errors [ [] ↦ ok (filter_chain exts tools) | e ∷ es ↦ fail (e ∷ es) ]

  unfoldable pub build_snapshot : World → World
  unfolding build
  build_snapshot w = elim w.fetch [
    | idle ↦ w
    | built gens tools ↦ w
    | keyed gens ↦ elim (build w.chain w.exts) [
      | fail es ↦ record w { fetch = idle }
      | ok tools ↦ record w { fetch = built gens tools }
    ]
  ]

  -- `fetchSnapshot` where nothing else runs: the answer and the world after.
  unfoldable pub fetch_snapshot : World → Result (List ToolError) (List Tool) × World
  unfolding cached read_key build_snapshot store build
  fetch_snapshot w = elim (cached w) [
    | some tools ↦ (ok tools, w)
    | none ↦ (build w.chain w.exts, store (build_snapshot (read_key w)))
  ]
