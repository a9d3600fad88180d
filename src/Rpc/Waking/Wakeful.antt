-- ===== src/Rpc/Waking/Wakeful.antt =====
-- rpc.rs `take`: a TAKE does not sleep through work.
use velo_bus.Prelude.{ℕ, ◌<◌, ◌^◌, ◌≡◌, ◌⊎◌, inl, inr, refl, ap, subst, arith}
use velo_bus.Rpc.{State}
use velo_bus.Rpc.Steps.{Step, begins, takes, retries, ends, Reachable, after}
use velo_bus.Rpc.Queues.Panics.{Reachable-Orderly}
use velo_bus.Rpc.Waking.{
  Taking, called, entered, looks, waits, has, over, Woken, Moves, refused, begun, enabled, returned,
  found, again, nothing, woken, elapsed, guarded, others, Run, starts, goes,
}
use velo_bus.Rpc.Waking.Work.{Calm}
use velo_bus.Rpc.Waking.Steps.{step-Calm}
use velo_bus.Rpc.Waking.Idling.{Idle, Within, Calm-Within, Calm-Idle, Empty, take_round-Empty}

-- Each move of a TAKE is a locked section, or leaves the scheduler alone.
Moves-step : (w : ℕ) (s t : State) (p q : Taking) → Moves w s p t q → Step s t ⊎ (s ≡ t)
Moves-step w s t p q (refused e t' h) = inl (subst (Step s) (ap (λ z. z.1) h) (begins w))
Moves-step w s t p q (begun t' h) = inl (subst (Step s) (ap (λ z. z.1) h) (begins w))
Moves-step w s t p q (returned n first second e t' h) = inl (takes w first second _ t h)
Moves-step w s t p q (found n first second job t' h) = inl (takes w first second _ t h)
Moves-step w s t p q (again n first second t' h) = inl (retries w first second t h)
Moves-step w s t p q (nothing n first second t' h) = inl (takes w first second _ t h)
Moves-step w s t p q enabled = inr refl
Moves-step w s t p q (woken n m) = inr refl
Moves-step w s t p q (elapsed n) = inr refl
Moves-step w s t p q (guarded r) = inl (ends w)
Moves-step w s t p q (others p' t' step) = inl step

-- What holds of a TAKE at each point.
abbrev Alert : ℕ → Taking → State → Type 0
Alert w called s = Unit {0}
Alert w entered s = Unit {0}
Alert w (looks n) s = Within n s
Alert w (waits n) s = Within n s × (Woken w n s ⊎ Idle w s)
Alert w (has r) s = Unit {0}
Alert w (over r) s = Unit {0}

Calm-Alert : (w : ℕ) (s t : State) (p : Taking) → Calm w s t → Alert w p s → Alert w p t
Calm-Alert w s t called a h = tt
Calm-Alert w s t entered a h = tt
Calm-Alert w s t (looks n) a h = Calm-Within w n s t a h
Calm-Alert w s t (waits n) a (le, h) = (Calm-Within w n s t a le, Calm-Idle w n s t a le h)
Calm-Alert w s t (has r) a h = tt
Calm-Alert w s t (over r) a h = tt

Moves-Alert :
    (w : ℕ) (s t : State) (p q : Taking)
    → ((u : State) → Step s u → Calm w s u)
    → Moves w s p t q
    → Alert w p s
    → Alert w q t
Moves-Alert w s t p q calm (refused e t' h) a = tt
Moves-Alert w s t p q calm (begun t' h) a = tt
Moves-Alert w s t p q calm enabled a = omega arith
Moves-Alert w s t p q calm (returned n first second e t' h) a = tt
Moves-Alert w s t p q calm (found n first second job t' h) a = tt
Moves-Alert w s t p q calm (again n first second t' h) a =
    Calm-Within w n s t (calm t (retries w first second t h)) a
Moves-Alert w s t p q calm (nothing n first second t' h) a = (
  Calm-Within w n s t (calm t (takes w first second _ t h)) a,
  subst (Empty w n) h (take_round-Empty w n s first second a),
)
Moves-Alert w s t p q calm (woken n m) a = tt
Moves-Alert w s t p q calm (elapsed n) a = tt
Moves-Alert w s t p q calm (guarded r) a = tt
Moves-Alert w s t p q calm (others p' t' step) a = Calm-Alert w s t p (calm t step) a

Run-Alert :
    (max_calls max_bytes w : ℕ) (s : State) (p : Taking)
    → max_bytes < 2 ^ 64
    → Run max_calls max_bytes w s p
    → Reachable max_calls max_bytes s × Alert w p s
Run-Alert max_calls max_bytes w s p word (starts s' r) = (r, tt)
Run-Alert max_calls max_bytes w t q word (goes s t' p q' run move) =
    let (r, a) = Run-Alert max_calls max_bytes w s p word run in
    let o = Reachable-Orderly max_calls max_bytes s word r in
    (
      elim (Moves-step w s t p q move) [
        | inl step ↦ after s t r step
        | inr same ↦ subst (Reachable max_calls max_bytes) same r
      ],
      Moves-Alert w s t p q (λ u step. step-Calm w s u o step) move a,
    )

-- A TAKE does not sleep through work: in every state in which it waits, under any interleaving with
-- the other locked sections, its worker has been woken since the waiter was enabled, or is there and
-- has no free slot or no call in the queue of its route. The byte limit fits 64 bits.
pub waits-Idle :
    (max_calls max_bytes w n : ℕ) (s : State)
    → max_bytes < 2 ^ 64
    → Run max_calls max_bytes w s (waits n)
    → Woken w n s ⊎ Idle w s
waits-Idle max_calls max_bytes w n s word run =
    (Run-Alert max_calls max_bytes w s (waits n) word run).1.1
