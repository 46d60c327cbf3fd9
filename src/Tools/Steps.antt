-- ===== src/Tools/Steps.antt =====
-- What happens around a session's catalogue, as steps, and how each moves the generations.
use hugen.Prelude.{
  ℕ, zero, suc, ◌≤◌, ◌<◌, ◌≡◌, refl, ap, inl, inr, Option, none, some, List, [], ◌∷◌, arith,
  Bool-cases, Option-cases,
}
use hugen.Prelude.Text.{Text, text_eq}
use hugen.Prelude.Maps.{lookup}
use hugen.Tools.{
  Tool, Provider, PolicyService, Manager, new_child, add_provider, remove_provider, set_policies,
  bump_policy_gen, tool_gen, policy_gen,
}
use hugen.Tools.Snapshot.{
  Extension, extension_generation_sum, idle, World, read_key, store, build_snapshot,
}

-- A change of the manager at a place of the chain.
unfoldable pub at : ℕ → (Manager → Manager) → List Manager → List Manager
at i f [] = []
at zero f (m ∷ parents) = f m ∷ parents
at (suc i) f (m ∷ parents) = m ∷ at i f parents

-- What happens to a session's world, while no manager is closed, a provider's list does not change and
-- one fetch runs at a time. An extension that changes raises its generation, which it must.
pub data Step (sort : List Tool → List Tool) (sanitize : Text → Option Text) (w : World)
    : World → Type 0 where
  adds :
      (i : ℕ) (p : Option Provider)
      → Step sort sanitize w (record w { chain = at i (λ m. (add_provider p m).1) w.chain })
  removes :
      (i : ℕ) (name : Text)
      → Step sort sanitize w (record w { chain = at i (λ m. (remove_provider name m).1) w.chain })
  sets_policies :
      (i : ℕ) (p : Option PolicyService)
      → Step sort sanitize w (record w { chain = at i (set_policies p) w.chain })
  bumps : (i : ℕ) → Step sort sanitize w (record w { chain = at i bump_policy_gen w.chain })
  extends :
      (exts : List Extension)
      → extension_generation_sum w.exts < extension_generation_sum exts
      → Step sort sanitize w (record w { exts = exts })
  reads : Step sort sanitize w (read_key w)
  builds : Step sort sanitize w (build_snapshot sort sanitize w)
  stores : Step sort sanitize w (store w)

pub data Steps (sort : List Tool → List Tool) (sanitize : Text → Option Text)
    : World → World → Type 0 where
  stay : (w : World) → Steps sort sanitize w w
  then_step :
      (w w' w'' : World)
      → Steps sort sanitize w w'
      → Step sort sanitize w' w''
      → Steps sort sanitize w w''

-- A session on a child of the agent's managers, nothing cached.
abbrev pub new_session : List Manager → List Extension → World
new_session parents exts = record {
  chain = new_child parents;
  exts = exts;
  cache = none;
  fetch = idle;
}

-- No counter falls, and where neither moves, nothing changed.
pub record Moves {A : Type 0} (tools policies : A → ℕ) (x y : A) : Type 0 where
  pub tool_le : tools x ≤ tools y
  pub policy_le : policies x ≤ policies y
  pub same : tools x ≡ tools y → policies x ≡ policies y → y ≡ x

abbrev pub ManagerMoves : Manager → Manager → Type 0
ManagerMoves m m' = Moves (λ (m : Manager). m.tool_gen) (λ (m : Manager). m.policy_gen) m m'

abbrev pub ChainMoves : List Manager → List Manager → Type 0
ChainMoves c c' = Moves tool_gen policy_gen c c'

stays : (m : Manager) → ManagerMoves m m
stays m = record { tool_le = omega arith; policy_le = omega arith; same = λ e f. refl }

pub add-Moves : (p : Option Provider) (m : Manager) → ManagerMoves m ((add_provider p m).1)
unfolding add_provider
add-Moves none m = stays m
add-Moves (some p) m = elim (Bool-cases (text_eq p.name [])) [
  | inl e ↦ rw e (stays m)
  | inr e ↦ rw e (elim (Option-cases (lookup p.name m.providers)) [
    | inl f ↦ rw f (record {
      tool_le = omega arith;
      policy_le = omega arith;
      same = λ g h. absurd (omega arith);
    })
    | inr (q, f) ↦ rw f (stays m)
  ])
]

pub remove-Moves : (name : Text) (m : Manager) → ManagerMoves m ((remove_provider name m).1)
unfolding remove_provider
remove-Moves name m = elim (Option-cases (lookup name m.providers)) [
  | inl f ↦ simp (f, remove_provider) (stays m)
  | inr (q, f) ↦
      simp (f, remove_provider)
        (record {
          tool_le = omega arith;
          policy_le = omega arith;
          same = λ g h. absurd (omega arith);
        })
]

pub bump-Moves :
    (m m' : Manager)
    → m'.tool_gen ≡ m.tool_gen
    → m'.policy_gen ≡ suc m.policy_gen
    → ManagerMoves m m'
bump-Moves m m' e f = record {
  tool_le = omega arith;
  policy_le = omega arith;
  same = λ g h. absurd (omega arith);
}

pub at-Moves :
    (f : Manager → Manager)
    → ((m : Manager) → ManagerMoves m (f m))
    → (i : ℕ) (c : List Manager) → ChainMoves c (at i f c)
unfolding at tool_gen policy_gen
at-Moves f h i [] = record { tool_le = omega arith; policy_le = omega arith; same = λ e g. refl }
at-Moves f h zero (m ∷ c) =
    let k = h m in
    record {
      tool_le = (let a = k.tool_le in omega arith);
      policy_le = (let a = k.policy_le in omega arith);
      same = λ e g. ap (λ x. x ∷ c) (k.same (omega arith) (omega arith));
    }
at-Moves f h (suc i) (m ∷ c) =
    let k = at-Moves f h i c in
    record {
      tool_le = (let a = k.tool_le in omega arith);
      policy_le = (let a = k.policy_le in omega arith);
      same = λ e g. ap (λ x. m ∷ x) (k.same (omega arith) (omega arith));
    }
