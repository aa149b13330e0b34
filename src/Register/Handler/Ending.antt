-- ===== src/Register/Handler/Ending.antt =====
-- How a registration ends.
use jit_streamer_eb.Prelude.{
  ℕ, ◌==◌, Bool-cases, some, String, List, [], ◌∷◌, ◌≡◌, refl, ap, ◌∙◌, ◌⊎◌, inl, inr, ok,
  Result-cases, Option-cases, if◌then◌else◌,
}
use jit_streamer_eb.Net.{Ipv6}
use jit_streamer_eb.Flow.{
  Flow, Outcome, next, reply, panicked, pure, unwrap, or_reply, continue, ◌>>=◌,
}
use jit_streamer_eb.Server.{Own, Server, Change, stored, inserting, ran, outside, change}
use jit_streamer_eb.Register.Host.{variable, Host, Reply}
use jit_streamer_eb.Register.Handler.{
  default_storage, plist_path, syncconf, route, text_of, run_bash, refresh_wireguard, save_plist,
  refresh, conclude,
}
use jit_streamer_eb.Register.Handler.Course.{IsError}
use jit_streamer_eb.Register.Handler.Logs.{Ends, changed, changed-nil, changed-changed}

module _ {W : Type 0} (host : Host W) where
  open host use {create_dir_all, write, bash}

  -- The commands that a registration runs.
  abbrev pub commands : ℕ → Ipv6 → List Change
  commands mode ip =
      if mode == 1 then ran (syncconf host) ∷ ran (route host (text_of host ip)) ∷ [] else []

  abbrev pub place : String → String → String
  place default udid = plist_path (variable host "PLIST_STORAGE" default) udid

  -- A registration that ends refuses before it stores the property list, or has stored it and
  -- spawned the insertion; it then panics at a command, or replies.
  abbrev pub Concludes :
      List ℕ → String → ℕ × Ipv6 × List ℕ → Own → Outcome Reply Reply × Server W → Type 0
  Concludes plist_bytes udid (mode, ip, config) before p =
      (Ends IsError (λ _. ⊥) p.0 × (p.1.own ≡ before))
      ⊎ ((default : String) × (default_storage host.os ≡ some default)
          × (((p.0 ≡ panicked)
                × ((ran_first : List Change) × (p.1.own
                      ≡ changed
                          (stored (place default udid) plist_bytes ∷ inserting udid ip ∷ ran_first)
                          before)))
              ⊎ ((p.0 ≡ next (ok config))
                  × (p.1.own
                      ≡ changed
                          (stored (place default udid) plist_bytes
                            ∷ inserting udid ip
                            ∷ commands mode ip)
                          before))))

  run_bash-cases :
      (command : String) (s : Server W)
      → let p = run_bash host command s in
        ((p.0 ≡ panicked) × (p.1.own ≡ s.own))
        ⊎ ((p.0 ≡ next tt) × (p.1.own ≡ changed (ran command ∷ []) s.own))
  unfolding run_bash outside unwrap change ◌>>=◌
  run_bash-cases command s = elim (Option-cases (bash command s.world).0) [
    | inl e ↦ inl (rw e (refl, refl))
    | inr (u, e) ↦ inr (rw e (refl, refl))
  ]

  save_plist-cases :
      (udid : String) (plist_bytes : List ℕ) (s : Server W)
      → let p = save_plist host udid plist_bytes s in
        (Ends IsError (λ _. ⊥) p.0 × (p.1.own ≡ s.own))
        ⊎ ((default : String) × (default_storage host.os ≡ some default)
            × (p.0 ≡ next tt)
            × (p.1.own ≡ changed (stored (place default udid) plist_bytes ∷ []) s.own))
  unfolding save_plist outside unwrap or_reply change ◌>>=◌
  save_plist-cases udid plist_bytes s = elim (Option-cases (default_storage host.os)) [
    | inl e ↦ inl (rw e (tt, refl))
    | inr (default, e) ↦
        elim (Result-cases
          (write (place default udid) plist_bytes
            (create_dir_all (variable host "PLIST_STORAGE" default) s.world).1).0) [
              | inl (u, f) ↦ inr (default, e, rw (e, f) refl, rw (e, f) refl)
              | inr (x, f) ↦ inl (rw (e, f) (refl, refl))
            ]
  ]

  refresh-cases :
      (mode : ℕ) (ip : Ipv6) (s : Server W)
      → let p = refresh host mode ip s in
        ((p.0 ≡ panicked) × ((l : List Change) × (p.1.own ≡ changed l s.own)))
        ⊎ ((p.0 ≡ next tt) × (p.1.own ≡ changed (commands mode ip) s.own))
  unfolding refresh refresh_wireguard ◌>>=◌ pure
  refresh-cases mode ip s = elim (Bool-cases (mode == 1)) [
    | inr e ↦ inr (rw e (refl, changed-nil s.own))
    | inl e ↦ elim (run_bash-cases (syncconf host) s) [
      | inl (v, o) ↦ inl (rw (e, v) (refl, ([], o ∙ changed-nil s.own)))
      | inr (v, o) ↦
          elim (run_bash-cases (route host (text_of host ip)) (run_bash host (syncconf host) s).1) [
            | inl (w, q) ↦ inl (rw (e, v, w) (refl, (ran (syncconf host) ∷ [], q ∙ o)))
            | inr (w, q) ↦ inr (
                rw (e, v, w)
                  (
                    refl,
                    q
                        ∙ ap (changed (ran (route host (text_of host ip)) ∷ [])) o
                        ∙ changed-changed _ _ s.own,
                  ))
          ]
    ]
  ]

  continue-Ends :
      {A : Type 0} (o : Outcome Reply A) (f : A → Flow (Server W) Reply Reply) (s : Server W)
      → Ends IsError (λ _. ⊥) o
      → Ends IsError (λ _. ⊥) (continue o f s).0 × ((continue o f s).1 ≡ s)
  continue-Ends (next a) f s h = absurd h
  continue-Ends (reply r) f s h = (h, refl)
  continue-Ends panicked f s h = (tt, refl)

  pub conclude-Concludes :
      (plist_bytes : List ℕ) (udid : String) (a : ℕ × Ipv6 × List ℕ) (s : Server W)
      → Concludes plist_bytes udid a s.own (conclude host plist_bytes udid a s)
  unfolding conclude ◌>>=◌ change pure
  conclude-Concludes plist_bytes udid (mode, ip, config) s =
      elim (save_plist-cases udid plist_bytes s) [
        | inl (h, e) ↦
            let (r, t) = continue-Ends saved.0 _ saved.1 h in
            inl (r, ap (λ (u : Server W). u.own) t ∙ e)
        | inr (default, e, v, o) ↦
            let before : saved.1.own
                ≡ changed (stored (place default udid) plist_bytes ∷ []) s.own =
              o in
            elim (refresh-cases mode ip inserted) [
              | inl (w, (l, q)) ↦ inr (
                default,
                e,
                inl (
                    rw (v, w)
                      (
                        refl,
                        (
                          l,
                          q
                              ∙ ap (λ u. changed l (changed (inserting udid ip ∷ []) u)) o
                              ∙ ap (changed l) (changed-changed _ _ s.own)
                              ∙ changed-changed _ _ s.own,
                        ),
                      )),
              )
              | inr (w, q) ↦ inr (
                default,
                e,
                inr (
                    rw (v, w)
                      (
                        refl,
                        q
                            ∙ ap
                                (λ u.
                                  changed (commands mode ip) (changed (inserting udid ip ∷ []) u))
                                o
                            ∙ ap (changed (commands mode ip)) (changed-changed _ _ s.own)
                            ∙ changed-changed _ _ s.own,
                      )),
              )
            ]
      ]
    where
      saved : Outcome Reply Unit × Server W
      saved = save_plist host udid plist_bytes s

      inserted : Server W
      inserted = record saved.1 { own = changed (inserting udid ip ∷ []) saved.1.own }
