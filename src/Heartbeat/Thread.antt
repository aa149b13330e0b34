-- ===== src/Heartbeat/Thread.antt =====
-- The loop of a device's heartbeat, in `heartbeat_thread` of src/heartbeat.rs. The device and the
-- oneshot channel are outside the loop: each round brings their three answers.
use jit_streamer_eb.Prelude.{
  ℕ, suc, ◌+◌, ◌≤◌, Bool, true, false, List, [], ◌∷◌, ◌++◌, ◌≡◌, ◌≢◌, ◌↔◌, ap, refl, length, arith,
  ◌⊎◌, inl, inr, All,
}

-- `receiver.try_recv()`: `Ok(_)`, `Err(Closed)` or `Err(Empty)`.
pub data TryRecv : Type 0 where
  received closed empty : TryRecv

-- Whether `get_marco(interval)` and `send_polo()` succeed, and what the channel holds then.
pub record Round : Type 0 where
  pub marco : Bool
  pub polo : Bool
  pub channel : TryRecv

-- Why the loop was left; `running` while it was not.
pub data Exit : Type 0 where
  no_marco no_polo stopped abandoned running : Exit

-- The `match receiver.try_recv()` at the end of a round: whether to break.
abbrev after_polo : TryRecv → Exit
after_polo received = stopped
after_polo closed = abandoned
after_polo empty = running

-- One round: what it ends with.
abbrev pub round : Round → Exit
round r = elim r.marco [
  | false ↦ no_marco
  | true ↦ elim r.polo [ false ↦ no_polo | true ↦ after_polo r.channel ]
]

-- The loop over the rounds that the device offers: its exit, and how many rounds it began.
unfoldable pub beat : List Round → Exit × ℕ
beat [] = (running, 0)
beat (r ∷ rest) =
    let (exit, rounds) = beat rest in
    elim (round r) [
      | running ↦ (exit, suc rounds)
      | no_marco ↦ (no_marco, 1)
      | no_polo ↦ (no_polo, 1)
      | stopped ↦ (stopped, 1)
      | abandoned ↦ (abandoned, 1)
    ]

-- The loop goes on through all the rounds, having begun each of them, exactly if in each the device
-- answers both times and the channel is empty.
pub beat-running_iff :
    (rounds : List Round)
    → (beat rounds ≡ (running, length rounds))
      ↔ All (λ r. (r.marco ≡ true) × (r.polo ≡ true) × (r.channel ≡ empty)) rounds
unfolding beat
beat-running_iff [] = (λ _. tt, λ _. refl)
beat-running_iff (r ∷ rest) = ground (arith, beat-running_iff rest)

-- Once the channel is not empty, because the manager has signalled the sender or dropped it, the
-- round that finds it so is the last: the loop is over, after at most that many rounds.
pub beat_stops :
    (front back : List Round) (r : Round)
    → r.channel ≢ empty
    → ((beat (front ++ (r ∷ back))).0 ≢ running)
      × ((beat (front ++ (r ∷ back))).1 ≤ length front + 1)
unfolding beat
beat_stops [] back r h = ground arith
beat_stops (f ∷ front) back r h = ground (arith, beat_stops front back r h)

round-cases : (r : Round) → (round r ≡ running) ⊎ (round r ≢ running)
round-cases r = ground arith

-- How a run that was told to stop looks: the round that found the message, and those before it.
abbrev pub StoppedAt : List Round → Type 0
StoppedAt rounds =
    (front : List Round) × (r : Round) × (back : List Round) × (rounds ≡ front ++ (r ∷ back))
    × (r.channel ≡ received)
    × ((beat front).0 ≡ running)
    × ((beat rounds).1 ≡ length front + 1)

stopped_later :
    (r : Round) (rest : List Round) → round r ≡ running → StoppedAt rest → StoppedAt (r ∷ rest)
unfolding beat
stopped_later r rest goes (front, last, back, e, c, f, n) =
    (r ∷ front, last, back, ap (λ (t : List Round). r ∷ t) e, c, ground arith, ground arith)

-- A loop that was told to stop has found a message in the channel of the last round that it began,
-- and the device answered in all the rounds before with the channel empty.
pub beat_stopped : (rounds : List Round) → (beat rounds).0 ≡ stopped → StoppedAt rounds
unfolding beat
beat_stopped [] h = cc
beat_stopped (r ∷ rest) h = elim (round-cases r) [
  | inl goes ↦ stopped_later r rest goes (beat_stopped rest (ground arith))
  | inr ends ↦ ([], r, rest, refl, ground arith, refl, ground arith)
]
