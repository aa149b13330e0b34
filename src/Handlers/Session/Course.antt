-- ===== src/Handlers/Session/Course.antt =====
-- The course of a session with a device: what a handler does to the heartbeat manager, and when.
use jit_streamer_eb.Prelude.{
  suc, String, [], ◌∷◌, ◌++◌, ◌≡◌, refl, sym, ap, subst, ◌∙◌, ◌⊎◌, inl, inr, Result-cases, arith,
}
use Prim.Native.String.{◌++◌ as str_append}
use jit_streamer_eb.Db.{Sqlite}
use jit_streamer_eb.Device.{Device, TcpProvider}
use jit_streamer_eb.Net.{IpAddr}
use jit_streamer_eb.Flow.{
  Outcome, next, reply, panicked, Flow, pure, or_reply, call, ◌>>=◌, ◌>>◌, continue,
}
use jit_streamer_eb.Server.{Own, Server, outside, send, spawn_heartbeat}
use jit_streamer_eb.Server.Quiet.{RepliesIn, Quiet, quiet_rules}
use jit_streamer_eb.Heartbeat.Manager.{store, kill}
use jit_streamer_eb.Common.Lookup.{get_udid_from_ip-Quiet, get_pairing_file-Quiet}
use jit_streamer_eb.Handlers.Session.{
  explain, label, heartbeat_thread, find_device, start_heartbeat,
}

-- The code ended early: with one of the replies in `Bad`, or by a panic.
abbrev pub IsRefusal : {R A : Type 0} → (R → Type 0) → Outcome R A → Type 0
IsRefusal Bad (next a) = ⊥
IsRefusal Bad (reply r) = Bad r
IsRefusal Bad panicked = Unit

-- A heartbeat of the device was started under a new sender, which the manager was told to store.
abbrev pub begun : String → Own → Own
begun udid own = record own {
  sent = own.sent ++ (store udid own.next_sender ∷ []);
  next_sender = suc own.next_sender;
  beating = (udid, own.next_sender) ∷ own.beating;
}

-- And the manager was then told to stop it.
abbrev pub finished : String → Own → Own
finished udid own = record (begun udid own) { sent = (begun udid own).sent ++ (kill udid ∷ []) }

-- The three ways in which a session may go.
abbrev pub Course : {R : Type 0} → (R → Type 0) → (R → Type 0) → Own → Outcome R R → Own → Type 0
Course {R} Bad Good before o after =
    (IsRefusal Bad o × (after ≡ before))
    ⊎ (((udid : String) × IsRefusal Bad o × (after ≡ begun udid before))
        ⊎ ((udid : String) × (r : R) × (o ≡ next r) × Good r × (after ≡ finished udid before)))

pub outcome-cases :
    {R A : Type 0} (Bad : R → Type 0) (o : Outcome R A)
    → RepliesIn Unit Bad o
    → ((a : A) × (o ≡ next a)) ⊎ IsRefusal Bad o
outcome-cases Bad (next a) h = inl (a, refl)
outcome-cases Bad (reply r) h = inr h
outcome-cases Bad panicked h = inr tt

module _ {W R A B : Type 0} where
  pub bind-next :
      (m : Flow (Server W) R A) (f : A → Flow (Server W) R B) (s : Server W) {a : A}
      → (m s).0 ≡ next a
      → (m >>= f) s ≡ f a (m s).1
  unfolding ◌>>=◌
  bind-next m f s e = rw e

  continue-IsRefusal :
      (Bad : R → Type 0) (f : A → Flow (Server W) R B) (o : Outcome R A) (s : Server W)
      → IsRefusal Bad o
      → IsRefusal Bad (continue o f s).0 × ((continue o f s).1 ≡ s)
  continue-IsRefusal Bad f (next a) s h = absurd h
  continue-IsRefusal Bad f (reply r) s h = (h, refl)
  continue-IsRefusal Bad f panicked s h = (tt, refl)

  pub bind-IsRefusal :
      (Bad : R → Type 0) (m : Flow (Server W) R A) (f : A → Flow (Server W) R B) (s : Server W)
      → IsRefusal Bad (m s).0
      → IsRefusal Bad ((m >>= f) s).0 × (((m >>= f) s).1 ≡ (m s).1)
  unfolding ◌>>=◌
  bind-IsRefusal Bad m f s h = continue-IsRefusal Bad f (m s).0 (m s).1 h

-- The course of an outcome with the state behind it.
abbrev pub CourseOf :
    {W R : Type 0} → (R → Type 0) → (R → Type 0) → Own → Outcome R R × Server W → Type 0
CourseOf Bad Good before p = Course Bad Good before p.0 p.1.own

module _ {W R A : Type 0} (Bad Good : R → Type 0) (before : Own) where
  CourseOf-next :
      (m : Flow (Server W) R A) (f : A → Flow (Server W) R R) (s : Server W) {a : A}
      → (m s).0 ≡ next a
      → CourseOf Bad Good before (f a (m s).1)
      → CourseOf Bad Good before ((m >>= f) s)
  CourseOf-next m f s v h = subst (CourseOf Bad Good before) (sym (bind-next m f s v)) h

  CourseOf-refusal :
      (m : Flow (Server W) R A) (f : A → Flow (Server W) R R) (s : Server W)
      → IsRefusal Bad (m s).0
      → (m s).1.own ≡ before
      → CourseOf Bad Good before ((m >>= f) s)
  CourseOf-refusal m f s h e =
      let (r, t) = bind-IsRefusal Bad m f s h in inl (r, ap (λ (u : Server W). u.own) t ∙ e)

module _ {W Value : Type 0} (db : Sqlite W) (dev : Device W Value) where
  open dev use {PairingFile}

  module _ {R : Type 0} (Bad : R → Type 0) (fail : String → R)
      (bad : (e : String) → Bad (fail e)) where
    pub find_device-Quiet : (ip : IpAddr) → Quiet Bad (find_device db dev fail ip)
    unfolding find_device
    find_device-Quiet ip =
        search (quiet_rules, get_udid_from_ip-Quiet, get_pairing_file-Quiet, bad) depth 20

    -- A heartbeat is started and stored, or the handler refuses and nothing has changed.
    pub start_heartbeat-cases :
        (ip : IpAddr) (udid : String) (pairing_file : PairingFile) (s : Server W)
        → let p = start_heartbeat db dev fail ip udid pairing_file s in
          ((p.0 ≡ next tt) × (p.1.own ≡ begun udid s.own)) ⊎ (IsRefusal Bad p.0 × (p.1.own ≡ s.own))
    unfolding start_heartbeat heartbeat_thread ◌>>=◌ call outside or_reply pure send spawn_heartbeat
    start_heartbeat-cases ip udid pairing_file s =
        elim (Result-cases (dev.heartbeat_connect provider s.world).0) [
          | inl (client, e) ↦ inl (ground arith, ground arith)
          | inr (x, e) ↦ inr (
            let refused : (start_heartbeat db dev fail ip udid pairing_file s).0
                    ≡ reply (fail (str_append "Failed to heartbeat device: " (explain db dev x))) =
                  ground arith in
                subst (IsRefusal Bad) (sym refused) (bad _),
            ground arith,
          )
        ]
      where
        provider : TcpProvider PairingFile
        provider = record { addr = ip; pairing_file = pairing_file; label = label }

    -- A session: what `find` gives, a heartbeat, the work with the device, and the heartbeat's end.
    abbrev pub session :
        {A : Type 0}
        → Flow (Server W) R (String × PairingFile)
        → IpAddr
        → (PairingFile → Flow (Server W) R A)
        → (A → R)
        → Flow (Server W) R R
    session find ip work result = do
      (udid, pairing_file) ← find
      start_heartbeat db dev fail ip udid pairing_file
      a ← work pairing_file
      send (kill udid)
      pure (result a)

    module _ {A : Type 0} (find : Flow (Server W) R (String × PairingFile))
        (quiet_find : Quiet Bad find) (ip : IpAddr) (work : PairingFile → Flow (Server W) R A)
        (quiet_work : (pairing_file : PairingFile) → Quiet Bad (work pairing_file))
        (result : A → R) where
      worked :
          (udid : String) (pairing_file : PairingFile) (s : Server W) (before : Own)
          → s.own ≡ begun udid before
          → let p = (do a ← work pairing_file; send (kill udid); pure (result a)) s in
            (IsRefusal Bad p.0 × (p.1.own ≡ begun udid before))
            ⊎ ((a : A) × (p.0 ≡ next (result a)) × (p.1.own ≡ finished udid before))
      unfolding send pure ◌>>=◌
      worked udid pairing_file s before e =
          elim (outcome-cases Bad (work pairing_file s).0 ((quiet_work pairing_file).replies s)) [
            | inl (a, v) ↦ inr (
              a,
              ap (λ (p : Outcome R R × Server W). p.0) (bind-next (work pairing_file) rest s v),
              ap (λ (p : Outcome R R × Server W). p.1.own) (bind-next (work pairing_file) rest s v)
                  ∙ ap (λ (o : Own). record o { sent = o.sent ++ (kill udid ∷ []) }) stays,
            )
            | inr h ↦ inl (
              (bind-IsRefusal Bad (work pairing_file) rest s h).0,
              ap (λ (t : Server W). t.own) (bind-IsRefusal Bad (work pairing_file) rest s h).1
                  ∙ stays,
            )
          ]
        where
          rest : A → Flow (Server W) R R
          rest a = do send (kill udid); pure (result a)

          stays : (work pairing_file s).1.own ≡ begun udid before
          stays = (quiet_work pairing_file).keeps s ∙ e

      -- What is left of a session once its device is known.
      abbrev from_heartbeat : String → PairingFile → Flow (Server W) R R
      from_heartbeat udid pairing_file = do
        start_heartbeat db dev fail ip udid pairing_file
        a ← work pairing_file
        send (kill udid)
        pure (result a)

      begun-Course :
          (udid : String) (pairing_file : PairingFile) (s : Server W)
          → CourseOf Bad (λ r. (a : A) × (r ≡ result a)) s.own (from_heartbeat udid pairing_file s)
      begun-Course udid pairing_file s = elim (start_heartbeat-cases ip udid pairing_file s) [
        | inl (v, e) ↦
            CourseOf-next Bad _ s.own (start_heartbeat db dev fail ip udid pairing_file) _ s v
              (elim (worked udid pairing_file (start_heartbeat db dev fail ip udid pairing_file s).1
                s.own e) [
                  | inl (h, f) ↦ inr (inl (udid, h, f))
                  | inr (a, w, f) ↦ inr (inr (udid, result a, w, (a, refl), f))
                ])
        | inr (h, e) ↦
            CourseOf-refusal Bad _ s.own (start_heartbeat db dev fail ip udid pairing_file) _ s h e
      ]

      -- A session refuses with no heartbeat started, or with its heartbeat left to the manager, or
      -- answers with a result after the manager was told to stop the heartbeat.
      pub session-Course :
          (s : Server W)
          → CourseOf Bad (λ r. (a : A) × (r ≡ result a)) s.own (session find ip work result s)
      session-Course s = elim (outcome-cases Bad (find s).0 (quiet_find.replies s)) [
        | inl ((udid, pairing_file), v) ↦ CourseOf-next Bad _ s.own find _ s v (
            subst
              (λ (o : Own).
                CourseOf Bad (λ r. (a : A) × (r ≡ result a)) o
                  (from_heartbeat udid pairing_file (find s).1))
              (quiet_find.keeps s) (begun-Course udid pairing_file (find s).1))
        | inr h ↦ CourseOf-refusal Bad _ s.own find _ s h (quiet_find.keeps s)
      ]

-- A course with weaker demands on the replies.
pub Course-mono :
    {R : Type 0} (Bad Good Fine : R → Type 0) (before : Own) (o : Outcome R R) (after : Own)
    → ((r : R) → Good r → Fine r)
    → Course Bad Good before o after
    → Course Bad Fine before o after
Course-mono Bad Good Fine before o after f (inl h) = inl h
Course-mono Bad Good Fine before o after f (inr (inl h)) = inr (inl h)
Course-mono Bad Good Fine before o after f (inr (inr (udid, r, e, g, own))) =
    inr (inr (udid, r, e, f r g, own))
