-- ===== src/SegmentController/Starvation.antt =====
-- When starvation is announced (cpp/src/segment-controller.cpp).
use ndnrtc.Base.{
  ℕ, suc, ◌+◌, ◌≤◌, ◌≡◌, Bool, true, false, Option, none, some, List, [], ◌∷◌, ◌++◌, leb,
  if◌then◌else◌, arith, All,
}
use ndnrtc.SegmentController.{
  Controller, Data, NetworkNack, Notice, segment_arrived, segment_request_timeout, segment_nack,
  segment_starvation, create, set_is_active, setup_invocation, cancel_invocation,
  periodic_invocation, fire, on_data, on_timeout, on_network_nack, count_app_nack, count_received,
}

-- What happens to a controller.
pub data Happening (S I : Type 0) : Type 0 where
  activated : Bool → Happening S I
  fired : Happening S I
  arrived : Data S → Happening S I
  timed_out : Option I → Happening S I
  nacked : Option I → NetworkNack → Happening S I

-- The timer is due at most the maximal idle time after the last data, or after the last happening.
pub record IsPunctual (seen : ℕ) (c : Controller) : Type 0 where
  pub fed : c.last_data_timestamp_ms ≤ seen
  pub soon : c.is_running ≡ true → c.due ≤ seen + c.max_idle_time_ms
  pub in_time :
      c.is_running ≡ true
      → c.starvation_fired ≡ false
      → c.due ≤ c.last_data_timestamp_ms + c.max_idle_time_ms

create-IsPunctual : (max_idle : ℕ) → IsPunctual 0 (create max_idle)
unfolding create
create-IsPunctual n = ground arith

module _ {S I : Type 0} where
  -- An exception leaves the time of the last data, that was set before.
  abbrev pub happen : Controller → Happening S I → ℕ → Controller × List (Notice S I)
  happen c (activated b) now = elim (set_is_active c b now) [
    | none ↦ (record c { active = true; last_data_timestamp_ms = now }, [])
    | some d ↦ (d, [])
  ]
  happen c fired now = fire c now
  happen c (arrived d) now = on_data c d now
  happen c (timed_out i) now = on_timeout c i
  happen c (nacked i k) now = on_network_nack c i k

  abbrev pub run : Controller → List (Happening S I × ℕ) → Controller × List (Notice S I)
  run c [] = (c, [])
  run c ((h, now) ∷ hs) = let (d, ns) = happen c h now in let (e, ms) = run d hs in (e, ns ++ ms)

  abbrev pub starvations : List (Notice S I) → ℕ
  starvations [] = 0
  starvations (segment_starvation ∷ ns) = suc (starvations ns)
  starvations (_ ∷ ns) = starvations ns

  abbrev pub is_arrival : Happening S I → Bool
  is_arrival (arrived d) = true
  is_arrival _ = false

  -- What happens in the order of the clock, from `seen` on.
  abbrev pub IsTimely : ℕ → List (Happening S I × ℕ) → Type 0
  IsTimely seen [] = Unit
  IsTimely seen ((h, now) ∷ hs) = (seen ≤ now) × IsTimely now hs

  happen-IsPunctual :
      (c : Controller) (h : Happening S I) (seen now : ℕ)
      → seen ≤ now
      → IsPunctual seen c
      → IsPunctual now ((happen c h now).0)
  unfolding set_is_active setup_invocation cancel_invocation fire periodic_invocation on_data
      count_app_nack count_received on_timeout on_network_nack
  happen-IsPunctual c (activated true) seen now l v = ground arith
  happen-IsPunctual c (activated false) seen now l v = ground arith
  happen-IsPunctual c fired seen now l v = ground arith
  happen-IsPunctual c (arrived d) seen now l v = ground arith
  happen-IsPunctual c (timed_out none) seen now l v = ground arith
  happen-IsPunctual c (timed_out (some i)) seen now l v = ground arith
  happen-IsPunctual c (nacked none k) seen now l v = ground arith
  happen-IsPunctual c (nacked (some i) k) seen now l v = ground arith

  run-IsPunctual :
      (c : Controller) (hs : List (Happening S I × ℕ)) (seen : ℕ)
      → IsTimely seen hs
      → IsPunctual seen c
      → (now : ℕ) × IsPunctual now ((run c hs).0)
  run-IsPunctual c [] seen t v = (seen, v)
  run-IsPunctual c ((h, now) ∷ hs) seen t v =
      run-IsPunctual ((happen c h now).0) hs now t.1 (happen-IsPunctual c h seen now t.0 v)

  -- Whatever happened to a controller, in the order of the clock: while the timer runs and
  -- starvation is not announced, the timer is due no later than the maximal idle time after the last
  -- data, and going off at a time it announces starvation exactly if that time has passed.
  pub starvation_is_punctual :
      (max_idle : ℕ) (hs : List (Happening S I × ℕ)) (now : ℕ)
      → IsTimely 0 hs
      → ((run (create max_idle) hs).0).is_running ≡ true
      → ((run (create max_idle) hs).0).starvation_fired ≡ false
      → let c = (run (create max_idle) hs).0 in
        let limit = c.last_data_timestamp_ms + c.max_idle_time_ms in
        (c.due ≤ limit)
        × (starvations ((fire {S = S} {I = I} c now).1) ≡ (if leb limit now then 1 else 0))
  unfolding fire periodic_invocation
  starvation_is_punctual n hs now t r f =
      ((run-IsPunctual (create n) hs 0 t (create-IsPunctual n)).1.in_time r f, ground (arith, r, f))

  quiet_step :
      (c : Controller) (h : Happening S I) (now : ℕ)
      → is_arrival h ≡ false
      → let (d, ns) = happen c h now in
        (starvations ns ≤ 1)
        × (c.starvation_fired ≡ true → (starvations ns ≡ 0) × (d.starvation_fired ≡ true))
        × (starvations ns ≡ 1 → d.starvation_fired ≡ true)
  unfolding set_is_active setup_invocation cancel_invocation fire periodic_invocation on_timeout
      on_network_nack
  quiet_step c (activated true) now q = ground arith
  quiet_step c (activated false) now q = ground arith
  quiet_step c fired now q = ground arith
  quiet_step c (arrived d) now q = ground arith
  quiet_step c (timed_out none) now q = ground arith
  quiet_step c (timed_out (some i)) now q = ground arith
  quiet_step c (nacked none k) now q = ground arith
  quiet_step c (nacked (some i) k) now q = ground arith

  starvations-++ :
      (ns ms : List (Notice S I)) → starvations (ns ++ ms) ≡ starvations ns + starvations ms
  starvations-++ [] ms = omega arith
  starvations-++ (segment_starvation ∷ ns) ms = ground (arith, starvations-++ ns ms)
  starvations-++ (segment_arrived s ∷ ns) ms = starvations-++ ns ms
  starvations-++ (segment_request_timeout i ∷ ns) ms = starvations-++ ns ms
  starvations-++ (segment_nack r i ∷ ns) ms = starvations-++ ns ms

  -- Until data arrives, starvation is announced at most once, and not at all once it was: not even
  -- when the controller is stopped and activated again.
  pub starvation_is_announced_once :
      (c : Controller) (hs : List (Happening S I × ℕ))
      → All (λ p. is_arrival p.0 ≡ false) hs
      → let ns = (run c hs).1 in starvations ns ≤ (if c.starvation_fired then 0 else 1)
  starvation_is_announced_once c [] q = ground arith
  starvation_is_announced_once c ((h, now) ∷ hs) q =
      let first = happen c h now in
      let rest = run first.0 hs in
      ground (
        arith,
        quiet_step c h now q.0,
        starvation_is_announced_once first.0 hs q.1,
        starvations-++ first.1 rest.1,
      )
