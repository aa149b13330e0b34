-- ===== src/Mount/Socket/Watched.antt =====
-- What a client of the websocket of src/mount.rs is told of the values that the `watch` channel of
-- its mount holds in turn.
use jit_streamer_eb.Prelude.{
  ℕ, suc, ◌≤◌, Bool, true, false, Option, none, some, Option-cases, String, List, [], ◌∷◌, ok, ◌≡◌,
  refl, subst, ap, ◌⊎◌, inl, inr, length, get_elem?, arith,
}
use Prim.Native.Nat.{zero}
use mathlib.Core.Option
use jit_streamer_eb.HashMap.{get}
use jit_streamer_eb.Db.{Sqlite}
use jit_streamer_eb.Db.Table.{Table}
use jit_streamer_eb.Flow.{Outcome, next, reply, pure, or_reply, some_or_reply, gets, call, ◌>>=◌}
use jit_streamer_eb.Server.{Server, Progress}
use jit_streamer_eb.Common.{get_udid_from_ip, no_device, select_udid}
use jit_streamer_eb.Common.Found.{Finds, get_udid_from_ip-Finds}
use jit_streamer_eb.Common.Lookup.{get_udid_from_ip-Quiet}
use jit_streamer_eb.Mount.Socket.{
  Floats, Turn, at_once, unsent, channel_closed, watching, error_message, idle_message,
  progress_message, MountWebSocketMessage, Served, after_message, watch_mount, handle_socket,
}

-- The one or the other, by a test.
abbrev pub Whether : Type 0 → Type 0 → Bool → Type 0
Whether A B true = A
Whether A B false = B

-- What tokio documents of a `watch` channel whose values are `values`, of a receiver that has seen
-- the value numbered `seen`: `borrow` shows the newest value and sees nothing, `changed` waits for a
-- value newer than the seen one and sees it, and fails once the senders are gone and there is none.
abbrev pub Watches : List Progress → ℕ → List Turn → Type 0
Watches values seen [] = Unit
Watches values seen (t ∷ turns) =
    (b : ℕ) × (seen ≤ b)
    × (get_elem? values b ≡ some t.borrowed)
    × Whether ((c : ℕ) × (b ≤ c) × Watches values c turns) (suc seen ≡ length values) t.changed

abbrev pub last_elem? : {A : Type 0} → List A → Option A
last_elem? [] = none
last_elem? (x ∷ []) = some x
last_elem? (x ∷ y ∷ l) = last_elem? (y ∷ l)

get_elem?-last :
    {A : Type 0} (l : List A) (i : ℕ) (a : A)
    → get_elem? l i ≡ some a
    → length l ≤ suc i
    → last_elem? l ≡ some a
get_elem?-last [] i a e h = ground arith
get_elem?-last (x ∷ []) zero a e h = e
get_elem?-last (x ∷ []) (suc i) a e h = ground arith
get_elem?-last (x ∷ y ∷ l) zero a e h = absurd (omega arith)
get_elem?-last (x ∷ y ∷ l) (suc i) a e h = get_elem?-last (y ∷ l) i a e (omega arith)

-- Some message is not taken.
abbrev pub Refuses : List Turn → Type 0
Refuses [] = ⊥
Refuses (t ∷ turns) = (t.accepted ≡ false) ⊎ Refuses turns

module _ (floats : Floats) where
  -- Each message shows a value, never one before the value numbered `seen` or the value of the message before.
  abbrev pub InOrder : List Progress → ℕ → List (MountWebSocketMessage floats) → Type 0
  InOrder values seen [] = Unit
  InOrder values seen (message ∷ messages) =
      (b : ℕ) × (v : Progress) × (seen ≤ b)
      × (get_elem? values b ≡ some v)
      × (message ≡ progress_message floats v)
      × InOrder values b messages

  -- When the channel is closed, the last message shows the last value.
  abbrev pub Ends : List Progress → List Turn → Served floats → Type 0
  Ends values turns (messages, at_once) = ⊥
  Ends values turns (messages, unsent) = Refuses turns
  Ends values turns (messages, channel_closed) =
      (v : Progress) × (last_elem? values ≡ some v)
      × (last_elem? messages ≡ some (progress_message floats v))
  Ends values turns (messages, watching) = length messages ≡ length turns

  InOrder-weaken :
      (values : List Progress) (seen later : ℕ) (messages : List (MountWebSocketMessage floats))
      → seen ≤ later
      → InOrder values later messages
      → InOrder values seen messages
  InOrder-weaken values seen later [] h o = tt
  InOrder-weaken values seen later (message ∷ messages) h (b, v, g, e, f, o) =
      (b, v, omega arith, e, f, o)

  Ends-later :
      (values : List Progress) (t : Turn) (turns : List Turn) (p : Served floats)
      → Ends values turns p
      → Ends values (t ∷ turns) (progress_message floats t.borrowed ∷ p.0, p.1)
  Ends-later values t turns (messages, at_once) h = h
  Ends-later values t turns (messages, unsent) h = inr h
  Ends-later values t turns ([], channel_closed) (v, e, f) = ground arith
  Ends-later values t turns (m ∷ messages, channel_closed) h = h
  Ends-later values t turns (messages, watching) h = ap suc h

  -- What is shown of the channel, and how the handler ends.
  abbrev pub Shown : List Progress → ℕ → List Turn → Served floats → Type 0
  Shown values seen turns p = InOrder values seen p.0 × Ends values turns p

  after_message-Shown :
      (values : List Progress) (seen b : ℕ) (t : Turn) (turns : List Turn) (rest : Served floats)
      → seen ≤ b
      → get_elem? values b ≡ some t.borrowed
      → (accepted changed : Bool) → t.accepted ≡ accepted
      → Whether ((c : ℕ) × (b ≤ c) × Shown values c turns rest) (suc seen ≡ length values) changed
      → Shown values seen
          (t ∷ turns)
          (after_message floats (progress_message floats t.borrowed) rest accepted changed)
  after_message-Shown values seen b t turns rest h e false changed lost w =
      ((b, t.borrowed, h, e, refl, tt), inl lost)
  after_message-Shown values seen b t turns rest h e true false taken w = (
    (b, t.borrowed, h, e, refl, tt),
    (t.borrowed, get_elem?-last values b t.borrowed e (omega arith), refl),
  )
  after_message-Shown values seen b t turns rest h e true true taken (c, k, shown) = (
    (b, t.borrowed, h, e, refl, InOrder-weaken values b c rest.0 k shown.0),
    Ends-later values t turns rest shown.1,
  )

  pub watch_mount-Shown :
      (values : List Progress) (seen : ℕ) (turns : List Turn)
      → Watches values seen turns
      → Shown values seen turns (watch_mount floats turns)
  unfolding watch_mount
  watch_mount-Shown values seen [] h = (tt, refl)
  watch_mount-Shown values seen (t ∷ turns) (b, h, e, w) =
      after_message-Shown values seen b t turns (watch_mount floats turns) h e t.accepted t.changed
        refl
        (elim t.changed
            as (λ c.
              Whether ((n : ℕ) × (b ≤ n) × Watches values n turns) (suc seen ≡ length values) c
              → Whether ((n : ℕ) × (b ≤ n) × Shown values n turns (watch_mount floats turns))
                  (suc seen ≡ length values) c) [
                    | false ↦ λ closed. closed
                    | true ↦ λ p. (p.0, p.1, watch_mount-Shown values p.0 turns p.2)
                  ]
          w)

  -- What a client is told, by the device's row and the receiver in the cache.
  abbrev pub Tells :
      (ℕ → List Progress)
      → (ℕ → List Turn)
      → String
      → Option (Option ℕ)
      → Outcome (Served floats) (Served floats)
      → Type 0
  Tells values turns ip none o = o ≡ reply (error_message floats (no_device ip) ∷ [], at_once)
  Tells values turns ip (some none) o = o ≡ reply (idle_message floats ∷ [], at_once)
  Tells values turns ip (some (some channel)) o =
      (p : Served floats) × (o ≡ next p) × Shown (values channel) 0 (turns channel) p

  module _ {W : Type 0} (db : Sqlite W) {select_ip delete_device insert_device : String}
      (table : Table select_udid select_ip delete_device insert_device db)
      (values : ℕ → List Progress) (turns : ℕ → List Turn)
      (watches : (channel : ℕ) → Watches (values channel) 0 (turns channel)) where
    -- With an available database, a client of the websocket is told in one message that there is
    -- no such device, or that its device is not being mounted; otherwise it is told of values of
    -- the mount's channel, never of an older one after a newer one. Then the handler ends only
    -- when a message is not taken, or when the channel is closed, and in that case the last
    -- message shows the last value.
    pub handle_socket-Tells :
        (ip : String) (s : Server W)
        → Tells values turns ip
            (Option.map (λ udid. get udid s.own.mount_cache) (table.rows s.world ip))
            (handle_socket floats db turns ip s).0
    unfolding handle_socket call gets or_reply some_or_reply pure ◌>>=◌
    handle_socket-Tells ip s = elim (Option-cases (table.rows s.world ip)) [
      | inl e ↦
          rw
            (
              e,
              subst (λ r. Finds ip r (get_udid_from_ip db ip s).0) e
                  (get_udid_from_ip-Finds db table ip s).0,
            )
            refl
      | inr (udid, e) ↦
          let found : (get_udid_from_ip db ip s).0 ≡ next (ok udid) =
            subst (λ r. Finds ip r (get_udid_from_ip db ip s).0) e
              (get_udid_from_ip-Finds db table ip s).0 in
          let own = (get_udid_from_ip-Quiet db ip).keeps s in
          elim (Option-cases (get udid s.own.mount_cache)) [
            | inl f ↦ rw (e, found, own, f) refl
            | inr (channel, f) ↦
                rw (e, found, own, f)
                  (_, refl, watch_mount-Shown (values channel) 0 (turns channel) (watches channel))
          ]
    ]
