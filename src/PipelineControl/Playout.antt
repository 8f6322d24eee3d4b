-- ===== src/PipelineControl/Playout.antt =====
-- When the state machine lets samples be played (cpp/src/pipeline-control-state-machine.cpp).
use ndnrtc.Base.{ℕ, ◌≡◌, sym, subst, Bool, true, false, arith}
use ndnrtc.PipelineControl.Types.{
  StateName, adjusting, fetching, Kind, audio, video, playback_driven, RuleSet, Event, Call, start,
  reset, starvation, segment, timeout, nack, allow_playout, Collaborators, Machine, Outcome, ok,
  throws, out_of_fuel,
}
use ndnrtc.PipelineControl.Bootstrapping.{bootstrapping_frame}
use ndnrtc.PipelineControl.States.{enter_state, enter_throws, exit_state, dispatch_event}
use ndnrtc.PipelineControl.Machine.{
  is_supported, transition_table, write_indicators, dispatch, create,
}
use ndnrtc.PipelineControl.Transitions.{
  restarted, flat_switch, flat_transition, flat_follow, flat_dispatch, dispatch-eq-flat_dispatch,
}

abbrev pub is_playing : StateName → Bool
is_playing adjusting = true
is_playing fetching = true
is_playing _ = false

-- What a call makes of the permission to play: `allowPlayout` sets it, no other call changes it.
abbrev pub after_call : {F Interest : Type 0} → Call F Interest → Bool → Bool
after_call (allow_playout allow ffwd_ms) allowed = allow
after_call _ allowed = allowed

-- The machine that an outcome leaves behind, which was `m` before.
abbrev pub end_of : {A : Type 0} → Outcome A → A → A
end_of (ok t) m = t
end_of (throws e t) m = t
end_of out_of_fuel m = m

module _ (C : Collaborators) (allowed : C.W → Bool)
    (allowed-perform : (c : Call C.F C.Interest) (w : C.W)
      → allowed (C.perform c w) ≡ after_call c (allowed w)) where
  open C use {W, F, Interest, perform}

  abbrev pub IsSynced : Machine W F → Type 0
  IsSynced m = allowed m.world ≡ is_playing m.state

  create-IsSynced :
      (w : W) (seqs limit rebufferings stat_state : ℕ)
      → IsSynced (create C w seqs limit rebufferings stat_state)
  unfolding create
  create-IsSynced w seqs limit rebufferings stat_state = simp allowed-perform

  audio-IsSynced :
      (ev : Event F Interest) (m : Machine W F)
      → IsSynced m
      → IsSynced (end_of (flat_dispatch C audio ev m) m)
  unfolding flat_dispatch flat_follow flat_transition flat_switch dispatch_event transition_table
      exit_state enter_state enter_throws restarted write_indicators is_supported
      bootstrapping_frame
  audio-IsSynced start m h = grind (arith, allowed-perform)
  audio-IsSynced reset m h = grind (arith, allowed-perform)
  audio-IsSynced (starvation d) m h = grind (arith, allowed-perform)
  audio-IsSynced (segment s) m h = grind (arith, allowed-perform)
  audio-IsSynced (timeout b i) m h = grind (arith, allowed-perform)
  audio-IsSynced (nack b r i) m h = grind (arith, allowed-perform)

  video-IsSynced :
      (ev : Event F Interest) (m : Machine W F)
      → IsSynced m
      → IsSynced (end_of (flat_dispatch C video ev m) m)
  unfolding flat_dispatch flat_follow flat_transition flat_switch dispatch_event transition_table
      exit_state enter_state enter_throws restarted write_indicators is_supported
      bootstrapping_frame
  video-IsSynced start m h = grind (arith, allowed-perform)
  video-IsSynced reset m h = grind (arith, allowed-perform)
  video-IsSynced (starvation d) m h = grind (arith, allowed-perform)
  video-IsSynced (segment s) m h = grind (arith, allowed-perform)
  video-IsSynced (timeout b i) m h = grind (arith, allowed-perform)
  video-IsSynced (nack b r i) m h = grind (arith, allowed-perform)

  playback_driven-IsSynced :
      (rules : RuleSet) (ev : Event F Interest) (m : Machine W F)
      → IsSynced m
      → IsSynced (end_of (flat_dispatch C (playback_driven rules) ev m) m)
  unfolding flat_dispatch flat_follow flat_transition flat_switch dispatch_event transition_table
      exit_state enter_state enter_throws restarted write_indicators is_supported
      bootstrapping_frame
  playback_driven-IsSynced rules start m h = grind (arith, allowed-perform)
  playback_driven-IsSynced rules reset m h = grind (arith, allowed-perform)
  playback_driven-IsSynced rules (starvation d) m h = grind (arith, allowed-perform)
  playback_driven-IsSynced rules (segment s) m h = grind (arith, allowed-perform)
  playback_driven-IsSynced rules (timeout b i) m h = grind (arith, allowed-perform)
  playback_driven-IsSynced rules (nack b r i) m h = grind (arith, allowed-perform)

  flat_dispatch-IsSynced :
      (k : Kind) (ev : Event F Interest) (m : Machine W F)
      → IsSynced m
      → IsSynced (end_of (flat_dispatch C k ev m) m)
  flat_dispatch-IsSynced audio = audio-IsSynced
  flat_dispatch-IsSynced video = video-IsSynced
  flat_dispatch-IsSynced (playback_driven rules) = playback_driven-IsSynced rules

  -- Any sequence of events and of attachments of the observer, from a machine `m`. The sequence may go
  -- on after an exception.
  pub data Reach (k : Kind) (m : Machine W F) : Machine W F → Type 0 where
    here : Reach k m m
    dispatched :
        {t : Machine W F} (ev : Event F Interest)
        → Reach k m t
        → Reach k m (end_of (dispatch C 2 k ev t) t)
    observed : {t : Machine W F} (n : ℕ) → Reach k m t → Reach k m (record t { attached = n })

  Reach-IsSynced : {k : Kind} {m t : Machine W F} → IsSynced m → Reach k m t → IsSynced t
  Reach-IsSynced h here = h
  Reach-IsSynced {k} {m} h (dispatched {t = t} ev r) =
      subst (λ o. IsSynced (end_of o t)) (sym (dispatch-eq-flat_dispatch C 0 k ev t))
        (flat_dispatch-IsSynced k ev t (Reach-IsSynced h r))
  Reach-IsSynced h (observed n r) = Reach-IsSynced h r

  -- In every machine that events reach from a new one, whether they end in an exception or not, playout
  -- is allowed exactly in Adjusting and Fetching, provided that of all calls only `allowPlayout` decides whether it is.
  pub Reach-create-IsSynced :
      (k : Kind) (w : W) (seqs limit rebufferings stat_state : ℕ) (t : Machine W F)
      → Reach k (create C w seqs limit rebufferings stat_state) t
      → allowed t.world ≡ is_playing t.state
  Reach-create-IsSynced k w seqs limit rebufferings stat_state t r =
      Reach-IsSynced (create-IsSynced w seqs limit rebufferings stat_state) r
