-- ===== src/Runtime/Tracker.antt =====
-- runtime/runtime-operation-tracker.js. An operation is numbered by its call of `begin`; its `release`
-- is called by hand, by the response's `finish` and by its `close`.
use tavern_mnemosyne.Prelude.{
  ℕ, suc, zero, ◌-◌, ◌≡◌, refl, Bool, true, false, List, [], ◌∷◌, ◌++◌, some, arith, get_elem?, ltb,
}

-- `released` holds the flag of each operation, in the order of the calls of `begin`.
pub record Tracker : Type 0 where
  pub active_operation_count : ℕ
  pub released : List Bool

-- `createRuntimeOperationTracker`
abbrev pub create : Tracker
create = record { active_operation_count = 0; released = [] }

unfoldable pub begin : Tracker → Tracker
begin t = record {
  active_operation_count = suc t.active_operation_count;
  released = t.released ++ (false ∷ []);
}

unfoldable pub set_flag : List Bool → ℕ → List Bool
set_flag [] n = []
set_flag (flag ∷ flags) zero = true ∷ flags
set_flag (flag ∷ flags) (suc n) = flag ∷ set_flag flags n

-- The count is at least one when an operation's flag is still down, so the subtraction is exact.
unfoldable pub release : ℕ → Tracker → Tracker
unfolding set_flag
release n t = elim (get_elem? t.released n) [
  | some false ↦ record {
    active_operation_count = t.active_operation_count - 1;
    released = set_flag t.released n;
  }
  | _ ↦ t
]

pub data Call : Type 0 where
  begun : Call
  ended : ℕ → Call

unfoldable pub calls : List Call → Tracker → Tracker
unfolding begin release
calls [] t = t
calls (begun ∷ rest) t = calls rest (begin t)
calls (ended n ∷ rest) t = calls rest (release n t)

-- `snapshot`'s `busy`
unfoldable pub busy : Tracker → Bool
busy t = ltb 0 t.active_operation_count

-- The operations that are not released.
unfoldable pub pending : List Bool → ℕ
pending [] = 0
pending (true ∷ flags) = pending flags
pending (false ∷ flags) = suc (pending flags)

pending-append : (flags : List Bool) → pending (flags ++ (false ∷ [])) ≡ suc (pending flags)
unfolding pending
pending-append [] = refl
pending-append (true ∷ flags) = pending-append flags
pending-append (false ∷ flags) = ground (arith, pending-append flags)

pending-set_flag :
    (flags : List Bool) (n : ℕ)
    → get_elem? flags n ≡ some false
    → suc (pending (set_flag flags n)) ≡ pending flags
unfolding pending set_flag
pending-set_flag [] n h = absurd (ground arith)
pending-set_flag (flag ∷ flags) zero h = ground arith
pending-set_flag (flag ∷ flags) (suc n) h = ground (arith, pending-set_flag flags n)

release-pending :
    (n : ℕ) (t : Tracker)
    → t.active_operation_count ≡ pending t.released
    → (release n t).active_operation_count ≡ pending (release n t).released
unfolding release
release-pending n t h = ground (arith, pending-set_flag t.released n)

calls-pending_from :
    (rest : List Call) (t : Tracker)
    → t.active_operation_count ≡ pending t.released
    → (calls rest t).active_operation_count ≡ pending (calls rest t).released
unfolding calls
calls-pending_from [] t h = h
calls-pending_from (begun ∷ rest) t h =
    calls-pending_from rest (begin t) (unfold begin in ground (arith, pending-append t.released))
calls-pending_from (ended n ∷ rest) t h =
    calls-pending_from rest (release n t) (release-pending n t h)

-- After any sequence of calls on a new tracker, the count is the number of the operations that have
-- begun and not been released.
pub calls-pending :
    (sequence : List Call)
    → (calls sequence create).active_operation_count ≡ pending (calls sequence create).released
calls-pending sequence = calls-pending_from sequence create (unfold pending in refl)

get_elem?-set_flag :
    (flags : List Bool) (n : ℕ)
    → get_elem? flags n ≡ some false
    → get_elem? (set_flag flags n) n ≡ some true
unfolding set_flag
get_elem?-set_flag [] n h = absurd (ground arith)
get_elem?-set_flag (flag ∷ flags) zero h = refl
get_elem?-set_flag (flag ∷ flags) (suc n) h = get_elem?-set_flag flags n h

-- Releasing an operation again, as `close` does after `finish`, changes nothing.
pub release-release : (n : ℕ) (t : Tracker) → release n (release n t) ≡ release n t
unfolding release
release-release n t = ground (arith, get_elem?-set_flag t.released n)
