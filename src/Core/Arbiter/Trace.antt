-- ===== src/Core/Arbiter/Trace.antt =====
-- Sequences of calls of the queue of crates/aether-core/src/arbiter.rs, in any order.
use aether_terminal.Prelude.{
  ℕ, suc, ◌+◌, ◌≡◌, refl, ap, inl, inr, String, Bool, true, false, List, [], ◌∷◌, ◌++◌,
  if◌then◌else◌, arith,
}
use aether_terminal.Core.Arbiter.{
  AgentAction, PendingAction, ArbiterQueue, new, enqueue, Resolved, approve, deny, drain_approved,
}
use aether_terminal.Core.Arbiter.Laws.{
  Found, moved, approve_lem, deny_lem, approved_actions, denied, drain_approved_lem,
}

pub data Call : Type 0 where
  enqueue_call : AgentAction → ℕ → String → String → ℕ → Call
  approve_call deny_call : String → Call
  drain_call : Call

-- The queue, and what the calls so far have submitted, approved and handed out for execution.
pub record Session : Type 0 where
  pub queue : ArbiterQueue
  pub submitted : List AgentAction
  pub approvals : List AgentAction
  pub executed : List AgentAction

abbrev pub opened : Session
opened = record { queue = new; submitted = []; approvals = []; executed = [] }

abbrev pub approval : Resolved → List AgentAction
approval (Resolved.ok action) = action ∷ []
approval _ = []

unfoldable pub call : Call → Session → Session
call (enqueue_call action pid source uuid now) s = record s {
  queue = (enqueue action pid source uuid now s.queue).0;
  submitted = s.submitted ++ action ∷ [];
}
call (approve_call id) s =
    let (q, r) = approve id s.queue in record s { queue = q; approvals = s.approvals ++ approval r }
call (deny_call id) s = record s { queue = (deny id s.queue).0 }
call drain_call s =
    let (q, actions) = drain_approved s.queue in
    record s { queue = q; executed = s.executed ++ actions }

unfoldable pub session : List Call → Session → Session
unfolding call
session [] s = s
session (c ∷ calls) s = session calls (call c s)

abbrev pub pending_actions : List PendingAction → List AgentAction
pending_actions [] = []
pending_actions (a ∷ pending) = a.action ∷ pending_actions pending

abbrev pub past_actions : List (PendingAction × Bool) → List AgentAction
past_actions [] = []
past_actions ((a, approved) ∷ history) = a.action ∷ past_actions history

-- How many actions of a list pass a test.
abbrev pub count : (AgentAction → Bool) → List AgentAction → ℕ
count p [] = 0
count p (a ∷ actions) = let rest = count p actions in if p a then suc rest else rest

pub record IsConserved (p : AgentAction → Bool) (s : Session) : Type 0 where
  pub kept :
      count p s.submitted
      ≡ count p (pending_actions s.queue.pending)
        + count p (past_actions s.queue.history)
        + count p s.executed
  pub allowed :
      count p s.approvals ≡ count p (approved_actions s.queue.history) + count p s.executed

module _ (p : AgentAction → Bool) where
  count-append : (xs ys : List AgentAction) → count p (xs ++ ys) ≡ count p xs + count p ys
  count-append [] ys = omega arith
  count-append (a ∷ xs) ys = ground (arith, count-append xs ys)

  count-pending :
      (xs ys : List PendingAction)
      → count p (pending_actions (xs ++ ys))
        ≡ count p (pending_actions xs) + count p (pending_actions ys)
  count-pending [] ys = omega arith
  count-pending (a ∷ xs) ys = ground (arith, count-pending xs ys)

  count-past :
      (xs ys : List (PendingAction × Bool))
      → count p (past_actions (xs ++ ys)) ≡ count p (past_actions xs) + count p (past_actions ys)
  count-past [] ys = omega arith
  count-past ((a, b) ∷ xs) ys = ground (arith, count-past xs ys)

  count-approved :
      (xs ys : List (PendingAction × Bool))
      → count p (approved_actions (xs ++ ys))
        ≡ count p (approved_actions xs) + count p (approved_actions ys)
  count-approved [] ys = omega arith
  count-approved ((a, true) ∷ xs) ys = ground (arith, count-approved xs ys)
  count-approved ((a, false) ∷ xs) ys = count-approved xs ys

  count-denied :
      (xs : List (PendingAction × Bool))
      → (count p (past_actions xs)
          ≡ count p (past_actions (denied xs)) + count p (approved_actions xs))
        × (count p (approved_actions (denied xs)) ≡ 0)
  count-denied [] = (refl, refl)
  count-denied ((a, true) ∷ xs) = ground (arith, count-denied xs)
  count-denied ((a, false) ∷ xs) = ground (arith, count-denied xs)

  enqueue-IsConserved :
      (action : AgentAction) (pid : ℕ) (source uuid : String) (now : ℕ) (s : Session)
      → IsConserved p s
      → IsConserved p (call (enqueue_call action pid source uuid now) s)
  unfolding call enqueue
  enqueue-IsConserved action pid source uuid now s h = record {
    kept = ground (
      arith,
      h.kept,
      count-append s.submitted (action ∷ []),
      count-pending s.queue.pending (
          record { id = uuid; action = action; pid = pid; requested_at = now; source = source }
          ∷ []),
    );
    allowed = h.allowed;
  }

  moved-count :
      {id : String} (q : ArbiterQueue) (f : Found id q.pending) (b : Bool)
      → count p (pending_actions (moved q f b).pending)
          + count p (past_actions (moved q f b).history)
        ≡ count p (pending_actions q.pending) + count p (past_actions q.history)
  moved-count q f b = ground (
    arith,
    ap (λ (l : List PendingAction). count p (pending_actions l)) f.split,
    count-pending f.before (f.entry ∷ f.after),
    count-pending f.before f.after,
    count-past q.history ((f.entry, b) ∷ []),
  )

  approve-IsConserved :
      (id : String) (s : Session) → IsConserved p s → IsConserved p (call (approve_call id) s)
  unfolding call
  approve-IsConserved id s h = elim (approve_lem id s.queue) [
    | inl (absent, e) ↦
        rw e (record {
          kept = h.kept;
          allowed = ground (arith, count-append s.approvals [], h.allowed);
        })
    | inr (f, e) ↦ rw e (record {
      kept = omega (arith, h.kept, moved-count s.queue f true);
      allowed = ground (
        arith,
        count-append s.approvals (f.entry.action ∷ []),
        h.allowed,
        count-approved s.queue.history ((f.entry, true) ∷ []),
      );
    })
  ]

  deny-IsConserved :
      (id : String) (s : Session) → IsConserved p s → IsConserved p (call (deny_call id) s)
  unfolding call
  deny-IsConserved id s h = elim (deny_lem id s.queue) [
    | inl (absent, e) ↦ rw e h
    | inr (f, e) ↦ rw e (record {
      kept = omega (arith, h.kept, moved-count s.queue f false);
      allowed = ground (arith, h.allowed, count-approved s.queue.history ((f.entry, false) ∷ []));
    })
  ]

  drain-IsConserved : (s : Session) → IsConserved p s → IsConserved p (call drain_call s)
  unfolding call
  drain-IsConserved s h = rw (drain_approved_lem s.queue) (record {
    kept = omega (
      arith,
      h.kept,
      count-denied s.queue.history,
      count-append s.executed (approved_actions s.queue.history),
    );
    allowed = omega (
      arith,
      h.allowed,
      count-denied s.queue.history,
      count-append s.executed (approved_actions s.queue.history),
    );
  })

  call-IsConserved : (c : Call) (s : Session) → IsConserved p s → IsConserved p (call c s)
  call-IsConserved (enqueue_call action pid source uuid now) s =
      enqueue-IsConserved action pid source uuid now s
  call-IsConserved (approve_call id) s = approve-IsConserved id s
  call-IsConserved (deny_call id) s = deny-IsConserved id s
  call-IsConserved drain_call s = drain-IsConserved s

  session_from-IsConserved :
      (calls : List Call) (s : Session) → IsConserved p s → IsConserved p (session calls s)
  unfolding session
  session_from-IsConserved [] s h = h
  session_from-IsConserved (c ∷ calls) s h =
      session_from-IsConserved calls (call c s) (call-IsConserved c s h)

  -- After any calls on a new queue, and for any test on actions: as many submitted actions pass it
  -- as pending, resolved and executed ones together, and as many approvals as approved actions in
  -- the history and executed ones together. So no action is lost, executed without an approval or
  -- executed more often than it was approved.
  pub session-IsConserved : (calls : List Call) → IsConserved p (session calls opened)
  session-IsConserved calls =
      session_from-IsConserved calls opened (record { kept = refl; allowed = refl })
