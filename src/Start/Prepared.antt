-- ===== src/Start/Prepared.antt =====
-- What the start of the server (`main` of src/main.rs) leaves on the host where its calls succeed.
use jit_streamer_eb.Prelude.{
  ℕ, ◌==◌, ◌||◌, Bool, true, false, Bool-cases, Option-cases, none, some, String, str_eq, List, [],
  ◌∷◌, ◌≡◌, refl, sym, subst, ap, ◌∙◌, ◌⊎◌, inl, inr, arith,
}
use Prim.Native.String.{◌++◌ as str_append}
use jit_streamer_eb.Flow.{next, pure, unwrap, io, ◌>>=◌}
use jit_streamer_eb.FileSystem.{
  Files, is_there, with_file, Kept, AllKept, Kept-refl, Kept-trans, is_there-Kept,
  AllKept-with_file, is_there-with_file,
}
use jit_streamer_eb.Common.{database}
use jit_streamer_eb.Register.Host.{Host, Wireguard, variable, config_name}
use jit_streamer_eb.Register.Handler.{register_mode}
use jit_streamer_eb.Start.{
  Platform, Route, Service, routes_of, server_port, read_storage, wireguard_conf, wireguard_port,
  create_database, create_wireguard, check_wireguard, main,
}

-- Calls that succeed: what they change of the files.
pub record Works {W : Type 0} (files : W → Files) (host : Host W) (platform : Platform W)
    (wg : Wireguard W) : Type 0 where
  pub exists :
      (path : String) (w : W)
      → (v : W) × (platform.exists path w ≡ (some (is_there (files w path)), v))
        × (files v ≡ files w)
  pub opens :
      (path : String) (w : W)
      → (v : W) × (text : List ℕ) × (platform.open_db path w ≡ (some tt, v))
        × (files v ≡ with_file path text (files w))
  pub executes :
      (path : String) (w : W)
      → (v : W) × (text : List ℕ) × (platform.execute_up path w ≡ (some tt, v))
        × (files v ≡ with_file path text (files w))
  pub binds :
      (port : ℕ) (w : W) → (v : W) × (platform.bind port w ≡ (some tt, v)) × (files v ≡ files w)
  pub generates :
      (w : W)
      → (key : wg.Key) × (v : W) × (wg.generate_private_key w ≡ (some key, v)) × (files v ≡ files w)
  pub parses :
      (address : wg.Address) × (wg.parse_address
          (variable host "WIREGUARD_SERVER_ADDRESS" "fd00::/128")
        ≡ some address)
  pub makes :
      (key : wg.Key) (address : wg.Address) (port : ℕ)
      → (interface : wg.Interface) × (wg.new_interface key address port ≡ some interface)
  pub creates :
      (path : String) (interface : wg.Interface) (w : W)
      → (v : W) × (text : List ℕ) × (wg.create path interface w ≡ (some tt, v))
        × (files v ≡ with_file path text (files w))
  -- `wg-quick up` reads the configuration, and leaves it and the database as they are.
  pub brings_up :
      (w : W)
      → (v : W) × (host.bash (str_append "wg-quick up " (config_name host)) w ≡ (some tt, v))
        × (files v (wireguard_conf host) ≡ files w (wireguard_conf host))
        × (files v database ≡ files w database)

-- Whether a path is on a table of routes.
abbrev pub serves : String → List Route → Bool
serves path [] = false
serves path (r ∷ routes) = str_eq path (r.path) || serves path routes

-- The paths of the registration are served in its modes only.
serves-routes_of :
    (mode : ℕ)
    → (serves "/register" (routes_of mode) ≡ (mode == 1 || mode == 2))
      × (serves "/upload" (routes_of mode) ≡ (mode == 2))
serves-routes_of mode = elim (Bool-cases (mode == 1)) [
  | inl e ↦ ground arith
  | inr e ↦ elim (Bool-cases (mode == 2)) [
    | inl f ↦ rw (e, f) (refl, refl)
    | inr f ↦ rw (e, f) (refl, refl)
  ]
]

module _ {W : Type 0} (host : Host W) where
  -- What a server serves and reads, by the mode of registration and the port.
  abbrev pub serving : ℕ → ℕ → Service
  serving mode port = record {
    allow_registration = mode;
    port = port;
    pairing_file_storage = read_storage host;
    routes = routes_of mode;
  }

module _ {W : Type 0} {files : W → Files} (host : Host W) (platform : Platform W) (wg : Wireguard W)
    (works : Works files host platform wg) where
  -- A file is there, and those that were there are as they were.
  abbrev pub Holds : String → W → W → Type 0
  Holds path w v = AllKept (files w) (files v) × (is_there (files v path) ≡ true)

  Holds-already :
      (path : String) (w v : W) (text : List ℕ)
      → files w path ≡ some text
      → files v ≡ files w
      → Holds path w v
  Holds-already path w v text e k =
      (λ q. subst (λ f. Kept (files w q) (f q)) (sym k) (Kept-refl (files w q)), rw (k, e) refl)

  Holds-new :
      (path : String) (w u v : W) (text : List ℕ)
      → files w path ≡ none
      → AllKept (files w) (files u)
      → files v ≡ with_file path text (files u)
      → Holds path w v
  Holds-new path w u v text e k f = (
    subst (AllKept (files w)) (sym f) (AllKept-with_file path text (files w) (files u) e k),
    subst (λ g. is_there (g path) ≡ true) (sym f) (is_there-with_file path text (files u)),
  )

  create_database-Holds :
      (w : W)
      → (v : W) × (create_database host platform (is_there (files w database)) w ≡ (next tt, v))
        × Holds database w v
  unfolding create_database io unwrap pure ◌>>=◌
  create_database-Holds w = elim (Option-cases (files w database)) [
    | inl e ↦
        let (w1, text1, opened, k1) = works.opens database w in
        let (w2, text2, executed, k2) = works.executes database w1 in
        let first = Holds-new database w w w1 text1 e (λ q. Kept-refl (files w q)) k1 in
        (w2, rw (e, opened, executed) refl, Holds-new database w w1 w2 text2 e first.0 k2)
    | inr (text, e) ↦ (w, rw e refl, Holds-already database w w text e refl)
  ]

  -- The configuration and the database, where they were there, are as they were.
  abbrev pub Spared : W → W → Type 0
  Spared w v =
      Kept (files w (wireguard_conf host)) (files v (wireguard_conf host))
      × Kept (files w database) (files v database)

  check_wireguard-Spared :
      (w : W)
      → (v : W) × (check_wireguard host platform wg w ≡ (next tt, v))
        × Spared w v
        × (is_there (files v (wireguard_conf host)) ≡ true)
  unfolding check_wireguard create_wireguard io unwrap pure ◌>>=◌
  check_wireguard-Spared w =
      let (w1, asked, k1) = works.exists (wireguard_conf host) w in
      elim (Option-cases (files w (wireguard_conf host))) [
        | inl e ↦
            let (key, w2, generated, k2) = works.generates w1 in
            let (address, parsed) = works.parses in
            let (interface, made) = works.makes key address (wireguard_port host) in
            let (w3, text, created, k3) = works.creates (wireguard_conf host) interface w2 in
            let (w4, ran, same_conf, same_database) = works.brings_up w3 in
            let (kept, there) =
              Holds-new (wireguard_conf host) w w w3 text e (λ q. Kept-refl (files w q))
                (k3 ∙ ap (with_file (wireguard_conf host) text) (k2 ∙ k1)) in
            (
              w4,
              rw (asked, e, generated, parsed, made, created, ran) refl,
              (
                subst (Kept (files w (wireguard_conf host))) (sym same_conf)
                    (kept (wireguard_conf host)),
                subst (Kept (files w database)) (sym same_database) (kept database),
              ),
              subst (λ o. is_there o ≡ true) (sym same_conf) there,
            )
        | inr (text, e) ↦
            let (kept, there) = Holds-already (wireguard_conf host) w w1 text e k1 in
            (w1, rw (asked, e) refl, (kept (wireguard_conf host), kept database), there)
      ]

  -- From the look for the database to the listener.
  record Listens (port : ℕ) (w : W) : Type 0 where
    asked : W
    made : W
    bound : W
    looks : platform.exists database w ≡ (some (is_there (files w database)), asked)
    makes : create_database host platform (is_there (files w database)) asked ≡ (next tt, made)
    binds : platform.bind port made ≡ (some tt, bound)
    holds : Holds database w bound

  listens : (port : ℕ) (w : W) → Listens port w
  listens port w =
      let (w1, looked, k1) = works.exists database w in
      let (w2, made, (kept, there)) = create_database-Holds w1 in
      let (w3, bound, k3) = works.binds port w2 in
      record {
        asked = w1;
        made = w2;
        bound = w3;
        looks = looked;
        makes =
            subst (λ f. create_database host platform (is_there (f database)) w1 ≡ (next tt, w2)) k1
              made;
        binds = bound;
        holds = (
          subst (AllKept (files w)) (sym k3) (subst (λ f. AllKept f (files w2)) k1 kept),
          subst (λ f. is_there (f database) ≡ true) (sym k3) there,
        );
      }

  -- On a host whose calls succeed, where `wg-quick up` leaves the WireGuard configuration and the
  -- database alone, with a mode of registration and a port that can be read, the server comes to
  -- listen. Then a configuration and a database that were there are as they were, there is a
  -- database, and in mode 1 a WireGuard configuration; registrations are served in the modes 1 and
  -- 2, and the page for uploads in mode 2.
  pub main-prepares :
      (mode port : ℕ) (w : W)
      → register_mode host ≡ some mode
      → server_port host ≡ some port
      → (v : W) × (main host platform wg w ≡ (next (serving host mode port), v))
        × Spared w v
        × (is_there (files v database) ≡ true)
        × ((serves "/register" (routes_of mode) ≡ (mode == 1 || mode == 2))
            × (serves "/upload" (routes_of mode) ≡ (mode == 2)))
        × ((mode == 1) ≡ false ⊎ is_there (files v (wireguard_conf host)) ≡ true)
  unfolding main io unwrap pure ◌>>=◌
  main-prepares mode port w e f = elim (Bool-cases (mode == 1)) [
    | inl g ↦
        let (w1, checked, kept, there) = check_wireguard-Spared w in
        let l = listens port w1 in
        (
          l.bound,
          rw (e, f, g, checked, l.looks, l.makes, l.binds) refl,
          (
            Kept-trans (files w (wireguard_conf host)) (files w1 (wireguard_conf host)) _ kept.0
                (l.holds.0 (wireguard_conf host)),
            Kept-trans (files w database) (files w1 database) _ kept.1 (l.holds.0 database),
          ),
          l.holds.1,
          serves-routes_of mode,
          inr (
              is_there-Kept (files w1 (wireguard_conf host)) _ (l.holds.0 (wireguard_conf host))
                there),
        )
    | inr g ↦
        let l = listens port w in
        (
          l.bound,
          rw (e, f, g, l.looks, l.makes, l.binds) refl,
          (l.holds.0 (wireguard_conf host), l.holds.0 database),
          l.holds.1,
          serves-routes_of mode,
          inl g,
        )
  ]
