-- ===== src/Plan.antt =====
-- The plan extension's projection: pkg/extension/plan/plan_core.go.
-- A `time.Time` is the number of its instant, 0 for the zero time. `Render` is left out: its body
-- is a call of the template renderer.
pub mod Replay
pub mod Caps
pub mod Handle
pub mod Recovered
mod Tests
use hugen.Prelude.{
  ℕ, suc, ◌+◌, ◌-◌, Bool, true, false, Option, none, some, List, [], ◌∷◌, ◌++◌, length, take, drop,
  last_n, get_elem?, leb, ltb, if◌then◌else◌,
}
use hugen.Prelude.Text.{Text, codes, text_eq}

abbrev pub max_body_size : ℕ
max_body_size = 8192

abbrev pub max_comment_size : ℕ
max_comment_size = 2048

abbrev pub max_comments : ℕ
max_comments = 30

-- A line feed, `[`, the three bytes of the ellipsis, and the rest.
abbrev pub truncation_marker : Text
truncation_marker = 10 ∷ b'[' ∷ 0xe2 ∷ 0x80 ∷ 0xa6 ∷ codes "truncated]"

pub record Comment : Type 0 where
  pub at : ℕ
  pub current_step : Text
  pub text : Text

pub record Plan : Type 0 where
  pub active : Bool
  pub text : Text
  pub current_step : Text
  pub comments : List Comment
  pub set_at : ℕ
  pub updated_at : ℕ

-- `OpSet`, `OpComment`, `OpClear`, and any other string.
pub data Op : Type 0 where
  set comment clear : Op
  other : Text → Op

pub record ProjectEvent : Type 0 where
  pub at : ℕ
  pub op : Op
  pub text : Text
  pub current_step : Text

-- `Plan{}`
abbrev pub no_plan : Plan
no_plan = record {
  active = false;
  text = [];
  current_step = [];
  comments = [];
  set_at = 0;
  updated_at = 0;
}

pub cap_text : Text → ℕ → Text
cap_text s max =
    if leb (length s) max
    then s
    else if leb max (length truncation_marker)
    then take max s
    else take (max - length truncation_marker) s ++ truncation_marker

-- `cs = append(cs, cmt); if len(cs) > MaxComments { cs = cs[len(cs)-MaxComments:] }`
pub retain : List Comment → List Comment
retain cs = if ltb max_comments (length cs) then drop (length cs - max_comments) cs else cs

pub to_comment : ProjectEvent → Comment
to_comment ev = record {
  at = ev.at;
  current_step = ev.current_step;
  text = cap_text ev.text max_comment_size;
}

pub apply_comment : Plan → ProjectEvent → Plan
apply_comment p ev = record p {
  comments = retain (p.comments ++ to_comment ev ∷ []);
  current_step = if text_eq ev.current_step [] then p.current_step else ev.current_step;
  updated_at = ev.at;
}

pub set_plan : ProjectEvent → Plan
set_plan ev = record {
  active = true;
  text = cap_text ev.text max_body_size;
  current_step = ev.current_step;
  comments = [];
  set_at = ev.at;
  updated_at = ev.at;
}

dispatch : Op → Plan → ProjectEvent → Plan
dispatch set p ev = set_plan ev
dispatch clear p ev = no_plan
dispatch comment p ev = if p.active then apply_comment p ev else p
dispatch (other s) p ev = p

pub apply : Plan → ProjectEvent → Plan
unfolding dispatch
apply p ev = dispatch ev.op p ev

abbrev pub is_boundary : Op → Bool
is_boundary set = true
is_boundary clear = true
is_boundary comment = false
is_boundary (other s) = false

-- The first loop of `Project`, at index `i`; `none` is the initial -1.
pub last_boundary : ℕ → Option ℕ → List ProjectEvent → Option ℕ
last_boundary i b [] = b
last_boundary i b (ev ∷ evs) = last_boundary (suc i) (if is_boundary ev.op then some i else b) evs

comment_step : Op → Plan → ProjectEvent → Plan
comment_step comment p ev = apply_comment p ev
comment_step set p ev = p
comment_step clear p ev = p
comment_step (other s) p ev = p

-- The second loop of `Project`.
pub add_comments : Plan → List ProjectEvent → Plan
unfolding comment_step
add_comments p [] = p
add_comments p (ev ∷ evs) = add_comments (comment_step ev.op p ev) evs

from_boundary : Op → ProjectEvent → List ProjectEvent → Plan
from_boundary set ev rest = add_comments (set_plan ev) rest
from_boundary clear ev rest = no_plan
from_boundary comment ev rest = add_comments (set_plan ev) rest
from_boundary (other s) ev rest = add_comments (set_plan ev) rest

at_boundary : Option ProjectEvent → List ProjectEvent → Plan
unfolding from_boundary
at_boundary none rest = no_plan
at_boundary (some ev) rest = from_boundary ev.op ev rest

project_from : Option ℕ → List ProjectEvent → Plan
unfolding at_boundary
project_from none events = no_plan
project_from (some i) events = at_boundary (get_elem? events i) (drop (suc i) events)

pub project : List ProjectEvent → Plan
unfolding project_from
project events = project_from (last_boundary 0 none events) events
