-- ===== src/Cancel.antt =====
-- src/runtime/util/cancellation: the callbacks of a StopState, a list that is linked both ways. A node
-- is named by its address; a null pointer is `none`.
pub mod Chain
pub mod Unlinking
pub mod Linked
pub mod Callbacks
mod Tests
use metamorphosis.Prelude.{
  ℕ, zero, suc, ◌==◌, Bool, true, false, if◌then◌else◌, Option, none, some, List, [], ◌∷◌, ◌++◌,
}

-- impl::StopCallbackNode
pub record CallbackNode : Type 0 where
  pub next : Option ℕ
  pub prev : Option ℕ

abbrev pub Nodes : Type 0
Nodes = ℕ → CallbackNode

-- impl::StopState, with the nodes that point to it; `executed` lists the callbacks that have run.
pub record StopState : Type 0 where
  pub nodes : Nodes
  pub callbacks : Option ℕ
  pub cancelled : Bool
  pub executed : List ℕ

abbrev pub null_node : CallbackNode
null_node = record { next = none; prev = none }

abbrev pub points_to : Option ℕ → ℕ → Bool
points_to none a = false
points_to (some b) a = a == b

-- `if (p) p->next = q`
abbrev pub set_next : Option ℕ → Option ℕ → Nodes → Nodes
set_next p q h a = if points_to p a then record (h a) { next = q } else h a

-- `if (p) p->prev = q`
abbrev pub set_prev : Option ℕ → Option ℕ → Nodes → Nodes
set_prev p q h a = if points_to p a then record (h a) { prev = q } else h a

-- The pointers of the nodes after Unlink of one.
unfoldable pub unlink_nodes : ℕ → Nodes → Nodes
unlink_nodes this h =
    let h' : Nodes = set_next (h this).prev (h this).next h in
    let h'' : Nodes = set_prev (h' this).next (h' this).prev h' in
    set_prev (some this) none (set_next (some this) none h'')

-- StopCallback::Unlink, which the destructor calls too
unfoldable pub unlink : ℕ → StopState → StopState
unlink this s = record s {
  callbacks = if points_to s.callbacks this then (s.nodes this).next else s.callbacks;
  nodes = unlink_nodes this s.nodes;
}

-- StopCallback::Execute
unfoldable pub execute : ℕ → StopState → StopState
execute this s = unlink this (record s { executed = s.executed ++ this ∷ [] })

-- The constructor of StopCallback behind the lock, where the source has not stopped.
unfoldable pub link : ℕ → StopState → StopState
link this s = record s {
  nodes = set_next (some this) s.callbacks (set_prev s.callbacks (some this) s.nodes);
  callbacks = some this;
}

-- The constructor of StopCallback, on a token with a state; the node has no neighbours yet.
unfoldable pub register : ℕ → StopState → StopState
register this s = if s.cancelled then execute this s else link this s

-- The loop of StopSource::Stop, in at most the given number of rounds; `none` where it goes on.
unfoldable pub run_callbacks : ℕ → StopState → Option StopState
run_callbacks zero s = none
run_callbacks (suc rounds) s = elim s.callbacks [
  | none ↦ some s
  | some this ↦ run_callbacks rounds (execute this s)
]

-- StopSource::Stop
unfoldable pub stop : ℕ → StopState → Option StopState
stop rounds s = run_callbacks rounds (record s { cancelled = true })
