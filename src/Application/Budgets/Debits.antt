-- ===== src/Application/Budgets/Debits.antt =====
-- What a budget of src/application/read_budget.rs grants in all.
use changekernel.Base.{ℕ, ◌+◌, ◌≡◌, List, [], ◌∷◌, Result, ok, arith, inl, inr, Result-cases, ◌>>=◌}
use changekernel.Application.Budgets.{ReadRefusal, ReadBudget, Reservation, debit, reserve}

-- Reservations in their order, up to the first that is refused.
unfoldable pub reserve_all : ReadBudget → List Reservation → Result ReadRefusal ReadBudget
reserve_all b [] = ok b
reserve_all b (r ∷ rs) = do b' ← reserve b r; reserve_all b' rs

-- What the reservations ask for of each kind.
pub record Total : Type 0 where
  pub source : ℕ
  pub io : ℕ
  pub allocation : ℕ
  pub work : ℕ
  pub calls : ℕ

abbrev pub add : Reservation → Total → Total
add (Reservation.source n) t = record t { source = n + t.source }
add (Reservation.io n) t = record t { io = n + t.io }
add (Reservation.allocate n) t = record t { allocation = n + t.allocation }
add (Reservation.work n) t = record t { work = n + t.work }
add Reservation.callback t = record t { calls = 1 + t.calls }

unfoldable pub total : List Reservation → Total
total [] = record { source = 0; io = 0; allocation = 0; work = 0; calls = 0 }
total (r ∷ rs) = add r (total rs)

-- What is left and what was asked for make up what there was.
pub record Balances (b b' : ReadBudget) (t : Total) : Type 0 where
  pub source : b'.remaining.source_bytes + t.source ≡ b.remaining.source_bytes
  pub io : b'.remaining.io_bytes + t.io ≡ b.remaining.io_bytes
  pub allocation : b'.remaining.allocation_bytes + t.allocation ≡ b.remaining.allocation_bytes
  pub work : b'.remaining.work_units + t.work ≡ b.remaining.work_units
  pub calls : b'.callbacks + t.calls ≡ b.callbacks

reserve-Balances :
    (b b' b'' : ReadBudget) (r : Reservation) (t : Total)
    → reserve b r ≡ ok b'
    → Balances b' b'' t
    → Balances b b'' (add r t)
unfolding reserve debit
reserve-Balances b b' b'' (Reservation.source n) t h k = ground (arith, k)
reserve-Balances b b' b'' (Reservation.io n) t h k = ground (arith, k)
reserve-Balances b b' b'' (Reservation.allocate n) t h k = ground (arith, k)
reserve-Balances b b' b'' (Reservation.work n) t h k = ground (arith, k)
reserve-Balances b b' b'' Reservation.callback t h k = ground (arith, k)

-- What the reservations that a budget grants ask for, with what they leave, is what the budget held: no
-- kind is charged for another, and none is granted more than its limit.
pub reserve_all-Balances :
    (b b' : ReadBudget) (rs : List Reservation)
    → reserve_all b rs ≡ ok b'
    → Balances b b' (total rs)
unfolding reserve_all total
reserve_all-Balances b b' [] h = ground arith
reserve_all-Balances b b' (r ∷ rs) h = elim (Result-cases (reserve b r)) [
  | inr (e, f) ↦ absurd (ground arith)
  | inl (c, f) ↦
      reserve-Balances b c b' r (total rs) f (reserve_all-Balances c b' rs (ground arith))
]
