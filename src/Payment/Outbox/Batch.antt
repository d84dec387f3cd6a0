-- ===== src/Payment/Outbox/Batch.antt =====
-- What holds of all rows of a query holds of the batch that the outbox worker takes of them
-- (tec-payment-service/src/services/outbox.worker.ts).
use tec_core_backend.Base.{ℕ, List, [], ◌∷◌, leb, inl, inr, Bool-cases, All}
use tec_core_backend.Payment.Outbox.{OutboxEvent, insert_by_age, sort_by_age}

pub insert-All :
    (P : ℕ × OutboxEvent → Type 0) (x : ℕ × OutboxEvent) (xs : List (ℕ × OutboxEvent))
    → P x
    → All P xs
    → All P (insert_by_age x xs)
unfolding insert_by_age
insert-All P x [] h k = (h, tt)
insert-All P x (y ∷ ys) h (k, ks) = elim (Bool-cases (leb x.1.created_at y.1.created_at)) [
  | inl e ↦ rw e (h, (k, ks))
  | inr e ↦ rw e (k, insert-All P x ys h ks)
]

pub sort-All :
    (P : ℕ × OutboxEvent → Type 0) (xs : List (ℕ × OutboxEvent)) → All P xs → All P (sort_by_age xs)
unfolding sort_by_age
sort-All P [] h = tt
sort-All P (x ∷ xs) (h, hs) = insert-All P x (sort_by_age xs) h (sort-All P xs hs)
