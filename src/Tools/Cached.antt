-- ===== src/Tools/Cached.antt =====
-- The cached catalogue is never stale: a fetch answers what a rebuild at that moment gives, also where
-- the managers change between the reading of the key and the building.
use hugen.Prelude.{◌≤◌, ◌≡◌, Option, none, some, List, ok}
use hugen.Prelude.Text.{Text}
use hugen.Tools.{Tool, Manager, tool_gen, policy_gen}
use hugen.Tools.Snapshot.{
  Extension, Generations, extension_generation_sum, Fetch, idle, keyed, built, World, build,
}
use hugen.Tools.Steps.{Steps, ChainMoves}

module _ (sort : List Tool → List Tool) (sanitize : Text → Option Text) where
  -- A key read earlier.
  record IsOld (key : Generations) (chain : List Manager) (exts : List Extension) : Type 0 where
    tool_old : key.tool ≤ tool_gen chain
    policy_old : key.policy ≤ policy_gen chain
    ext_old : key.ext ≤ extension_generation_sum exts

  -- Tools that, while the key is the current one, are what a rebuild gives.
  record IsMark (key : Generations) (tools : List Tool) (chain : List Manager)
      (exts : List Extension) : Type 0 where
    old : IsOld key chain exts
    fresh :
        key.tool ≡ tool_gen chain
        → key.policy ≡ policy_gen chain
        → key.ext ≡ extension_generation_sum exts
        → build sort sanitize chain exts ≡ ok tools

  abbrev CacheGood : Option (Generations × List Tool) → List Manager → List Extension → Type 0
  CacheGood none c x = Unit
  CacheGood (some (key, tools)) c x = IsMark key tools c x

  abbrev FetchGood : Fetch → List Manager → List Extension → Type 0
  FetchGood idle c x = Unit
  FetchGood (keyed key) c x = IsOld key c x
  FetchGood (built key tools) c x = IsMark key tools c x

  abbrev IsGood : World → Type 0
  IsGood w = CacheGood w.cache w.chain w.exts × FetchGood w.fetch w.chain w.exts

  -- What a change of the managers or of the extensions does to keys and marks.
  record Later (c : List Manager) (x : List Extension) (c' : List Manager) (x' : List Extension)
      : Type 0 where
    moves : ChainMoves c c'
    ext_le : extension_generation_sum x ≤ extension_generation_sum x'
    ext_same : extension_generation_sum x ≡ extension_generation_sum x' → x' ≡ x
