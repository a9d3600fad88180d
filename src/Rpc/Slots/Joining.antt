-- ===== src/Rpc/Slots/Joining.antt =====
-- rpc.rs `new`, `connected`, `register` and `request` keep the counts of running calls.
use velo_bus.Prelude.{
  ℕ, ◌+◌, ◌≡◌, refl, sym, ap, ◌∙◌, inl, inr, true, [], ◌∷◌, ◌++◌, ◌==◌, ==_iff, lookup, update,
  none, some, bytes_eq, arith, Option-cases,
}
use velo_bus.Protocol.Types.{◌+u64◌, Bytes}
use velo_bus.Rpc.{count_up, Worker, Call, State, new, find_worker}
use velo_bus.Rpc.Lookups.{found-push, lookup-push_old}
use velo_bus.Rpc.Calls.{expire_queued}
use velo_bus.Rpc.Routes.{connected, join, register}
use velo_bus.Rpc.Requests.{call_bytes, enqueue, admit, request}
use velo_bus.Rpc.Moves.{Sound}
use velo_bus.Rpc.Outcomes.{Leaves}
use velo_bus.Rpc.Queues.{notify_route-Alike}
use velo_bus.Rpc.Slots.{owned_by, Slots}
use velo_bus.Rpc.Slots.Counting.{owned_by-append}
use velo_bus.Rpc.Slots.Releases.{same-SlotsBut, expire_queued-Books}
use velo_bus.Rpc.Sections.{connected_keeps, register_keeps, request_keeps}

abbrev pub Nobody : ℕ → Type 0
Nobody w = ⊥

pub new-Slots : (max_calls max_bytes : ℕ) → Slots (new max_calls max_bytes)
unfolding new lookup owned_by
new-Slots max_calls max_bytes = record {
  exact = λ w worker f. absurd (none-is-not-some worker f);
  hired = λ w stays f. refl;
}
  where
    none-is-not-some : (worker : Worker) → none ≡ some worker → ⊥
    none-is-not-some worker q = cc

pub connected-Slots : (s : State) (c : ℕ) → Slots s → Slots (connected s c)
connected-Slots s c h = connected_keeps Slots s c (λ cs. same-SlotsBut Nobody s _ refl refl h) h

module _ (s : State) (w : ℕ) (name : Bytes) (concurrency queue_limit : ℕ) (h : Slots s) where
  abbrev joining : Worker
  joining = record { route = name; concurrency = concurrency; running = 0; pending_takes = 0 }

  join-Slots : find_worker s w ≡ none → Slots (join s w name concurrency queue_limit)
  unfolding join
  join-Slots free = record {
    exact = λ k worker f. elim (found-push ◌==◌ ==_iff k w joining s.workers worker f) [
      | inl old ↦ h.exact k worker old
      | inr (same, q) ↦
          let none_owned : owned_by k s.calls ≡ 0 =
            ap (λ z. owned_by z s.calls) same ∙ h.hired w (λ b. b) free in
          (
            ap (λ (z : Worker). z.running) q ∙ sym none_owned,
            omega (arith, ap (λ (z : Worker). z.running) q, ap (λ (z : Worker). z.concurrency) q),
          )
    ];
    hired = λ k stays f. elim (Option-cases (find_worker s k)) [
      | inl e ↦ h.hired k stays e
      | inr (v, e) ↦
          absurd
            (some-is-not-none v (sym (lookup-push_old ◌==◌ ==_iff k w joining v s.workers e) ∙ f))
    ];
  }
    where
      some-is-not-none : (v : Worker) → some v ≡ none → ⊥
      some-is-not-none v q = cc

  pub register-Slots : Slots (register s w name concurrency queue_limit).1
  register-Slots = register_keeps Slots s w name concurrency queue_limit join-Slots h

admit-Slots :
    (s : State) (caller : ℕ) (route : Bytes) (deadline : ℕ) (payload : Bytes) (bytes : ℕ)
    → Slots s
    → Slots (admit s caller route deadline payload bytes)
unfolding admit owned_by
admit-Slots s caller route deadline payload bytes h =
    let new_call : Call = record {
      caller = caller;
      route = route;
      owner = none;
      deadline = deadline;
      payload = payload;
      response = true;
      retained_bytes = bytes;
    } in
    let same : (w : ℕ) → owned_by w (s.calls ++ (s.next_id, new_call) ∷ []) ≡ owned_by w s.calls =
      λ w. omega (arith, owned_by-append w s.calls ((s.next_id, new_call) ∷ [])) in
    let admitted : State = record s {
      next_id = s.next_id + 1;
      calls = s.calls ++ (s.next_id, new_call) ∷ [];
      routes = update bytes_eq route (enqueue s.next_id) s.routes;
      retained_bytes = s.retained_bytes +u64 bytes;
      accepted = count_up s.accepted;
    } in
    let noted = notify_route-Alike admitted route in
    let done : Slots admitted = record {
      exact =
          λ w worker f. let (count, limit) = h.exact w worker f in (count ∙ sym (same w), limit);
      hired = λ w stays f. same w ∙ h.hired w stays f;
    } in
    same-SlotsBut Nobody admitted _ noted.calls noted.workers done

pub request-Slots :
    (s : State) (caller : ℕ) (route : Bytes) (timeout_ms : ℕ) (payload : Bytes) (first second : ℕ)
    → Sound s
    → Slots s
    → Leaves Slots (request s caller route timeout_ms payload first second)
request-Slots s caller route timeout_ms payload first second l h =
    let t = expire_queued s route first in
    let cleaned = (expire_queued-Books Nobody s route first (l, h)).1 in
    request_keeps Slots caller route timeout_ms payload s first second
      (same-SlotsBut Nobody s _ refl refl h) (same-SlotsBut Nobody t _ refl refl cleaned)
      (λ r deadline e free.
        admit-Slots t caller route deadline payload (call_bytes route payload) cleaned)
      cleaned h
