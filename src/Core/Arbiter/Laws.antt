-- ===== src/Core/Arbiter/Laws.antt =====
-- What the operations of crates/aether-core/src/arbiter.rs do.
use aether_terminal.Prelude.{
  ℕ, ◌≡◌, ◌≢◌, refl, ap, ◌∙◌, ◌⊎◌, inl, inr, String, Bool, true, false, Option, none, some, List,
  [], ◌∷◌, ◌++◌, append_assoc, append-nil, str_eq, str_eq_iff, length, arith, Bool-cases,
}
use aether_terminal.Core.Arbiter.{
  AgentAction, PendingAction, ArbiterQueue, position, remove_at, Resolved, Denied, without_action,
  resolve_at, resolve_position, approve, deny, drain_loop, drain_approved,
}

-- No pending action has the id.
abbrev pub IsAbsent : String → List PendingAction → Type 0
IsAbsent id [] = Unit
IsAbsent id (a ∷ pending) = (a.id ≢ id) × IsAbsent id pending

-- `pending` is `before`, `entry` and `after`, and `entry` is the first with the id.
pub record Found (id : String) (pending : List PendingAction) : Type 0 where
  pub before : List PendingAction
  pub entry : PendingAction
  pub after : List PendingAction
  pub split : pending ≡ before ++ entry ∷ after
  pub named : entry.id ≡ id
  pub first : IsAbsent id before

pub search_id :
    (id : String) (pending : List PendingAction) → IsAbsent id pending ⊎ Found id pending
search_id id [] = inl tt
search_id id (a ∷ pending) = elim (Bool-cases (str_eq a.id id)) [
  | inl e ↦ inr (record {
    before = [];
    entry = a;
    after = pending;
    split = refl;
    named = (str_eq_iff a.id id).0 e;
    first = tt;
  })
  | inr ne ↦ elim (search_id id pending) [
    | inl absent ↦ inl (differs ne, absent)
    | inr f ↦ inr (record {
      before = a ∷ f.before;
      entry = f.entry;
      after = f.after;
      split = ap (λ (l : List PendingAction). a ∷ l) f.split;
      named = f.named;
      first = (differs ne, f.first);
    })
  ]
]
  where
    differs : str_eq a.id id ≡ false → a.id ≢ id
    differs ne e = cc (ne, (str_eq_iff a.id id).1 e)

position-absent :
    (id : String) (pending : List PendingAction) → IsAbsent id pending → position id pending ≡ none
unfolding position
position-absent id [] h = refl
position-absent id (a ∷ pending) h =
    ground (arith, str_eq_iff a.id id, h.0, position-absent id pending h.1)

position-first :
    (id : String) (before : List PendingAction) (entry : PendingAction) (after : List PendingAction)
    → IsAbsent id before
    → entry.id ≡ id
    → position id (before ++ entry ∷ after) ≡ some (length before)
unfolding position
position-first id [] entry after h e = ground (arith, str_eq_iff entry.id id)
position-first id (a ∷ before) entry after h e =
    ground (arith, str_eq_iff a.id id, h.0, position-first id before entry after h.1 e)

remove_at-length :
    (before : List PendingAction) (entry : PendingAction) (after : List PendingAction)
    → remove_at (length before) (before ++ entry ∷ after) ≡ some (entry, before ++ after)
unfolding remove_at
remove_at-length [] entry after = refl
remove_at-length (a ∷ before) entry after = rw (remove_at-length before entry after)

abbrev pub moved : {id : String} (q : ArbiterQueue) → Found id q.pending → Bool → ArbiterQueue
moved q f approved = record {
  pending = f.before ++ f.after;
  history = q.history ++ (f.entry, approved) ∷ [];
}

resolve-Found :
    (id : String) (approved : Bool) (q : ArbiterQueue) (f : Found id q.pending)
    → resolve_position id approved q (position id q.pending)
      ≡ (moved q f approved, Resolved.ok f.entry.action)
resolve-Found id approved q f =
    ap (λ (l : List PendingAction). resolve_position id approved q (position id l)) f.split
    ∙ ap (resolve_position id approved q)
        (position-first id f.before f.entry f.after f.first f.named)
    ∙ ap (λ (l : List PendingAction). resolve_at id approved q (remove_at (length f.before) l))
        f.split
    ∙ ap (resolve_at id approved q) (remove_at-length f.before f.entry f.after)

-- `approve` leaves the queue as it is when no pending action has the id. Otherwise it takes the
-- first one that has it out of the pending actions, adds it to the history as approved, and
-- returns its action.
pub approve_lem :
    (id : String) (q : ArbiterQueue)
    → (IsAbsent id q.pending × (approve id q ≡ (q, Resolved.not_found id)))
      ⊎ ((f : Found id q.pending) × (approve id q ≡ (moved q f true, Resolved.ok f.entry.action)))
unfolding approve
approve_lem id q = elim (search_id id q.pending) [
  | inl absent ↦ inl (absent, ap (resolve_position id true q) (position-absent id q.pending absent))
  | inr f ↦ inr (f, resolve-Found id true q f)
]

-- `deny` leaves the queue as it is when no pending action has the id. Otherwise it takes the first
-- one that has it out of the pending actions and adds it to the history as not approved.
pub deny_lem :
    (id : String) (q : ArbiterQueue)
    → (IsAbsent id q.pending × (deny id q ≡ (q, Denied.not_found id)))
      ⊎ ((f : Found id q.pending) × (deny id q ≡ (moved q f false, Denied.ok)))
unfolding deny
deny_lem id q = elim (search_id id q.pending) [
  | inl absent ↦ inl (
    absent,
    ap (λ (o : Option ℕ). let (q', r) = resolve_position id false q o in (q', without_action r))
        (position-absent id q.pending absent),
  )
  | inr f ↦ inr (
    f,
    ap (λ (p : ArbiterQueue × Resolved). let (q', r) = p in (q', without_action r))
        (resolve-Found id false q f),
  )
]

-- The actions approved in a history, and the rest of it.
abbrev pub approved_actions : List (PendingAction × Bool) → List AgentAction
approved_actions [] = []
approved_actions ((entry, true) ∷ history) = entry.action ∷ approved_actions history
approved_actions ((entry, false) ∷ history) = approved_actions history

abbrev pub denied : List (PendingAction × Bool) → List (PendingAction × Bool)
denied [] = []
denied ((entry, true) ∷ history) = denied history
denied ((entry, false) ∷ history) = (entry, false) ∷ denied history

drain_loop_lem :
    (history : List (PendingAction × Bool)) (approved : List AgentAction)
    (remaining : List (PendingAction × Bool))
    → drain_loop history approved remaining
      ≡ (approved ++ approved_actions history, remaining ++ denied history)
unfolding drain_loop
drain_loop_lem [] approved remaining = rw (append-nil approved, append-nil remaining)
drain_loop_lem ((entry, true) ∷ history) approved remaining =
    rw (drain_loop_lem history (approved ++ entry.action ∷ []) remaining, append_assoc)
drain_loop_lem ((entry, false) ∷ history) approved remaining =
    rw (drain_loop_lem history approved (remaining ++ (entry, false) ∷ []), append_assoc)

-- `drain_approved` returns the actions approved in the history, in order, keeps the denied entries
-- in order, and does not touch what is pending.
pub drain_approved_lem :
    (q : ArbiterQueue)
    → drain_approved q ≡ (record q { history = denied q.history }, approved_actions q.history)
unfolding drain_approved
drain_approved_lem q = rw (drain_loop_lem q.history [] [])

approved_actions-denied :
    (history : List (PendingAction × Bool)) → approved_actions (denied history) ≡ []
approved_actions-denied [] = refl
approved_actions-denied ((entry, true) ∷ history) = approved_actions-denied history
approved_actions-denied ((entry, false) ∷ history) = approved_actions-denied history

-- A second `drain_approved` right after a first returns nothing.
pub drain-drain : (q : ArbiterQueue) → (drain_approved (drain_approved q).0).1 ≡ []
drain-drain q = rw drain_approved_lem (rw drain_approved_lem (approved_actions-denied q.history))
