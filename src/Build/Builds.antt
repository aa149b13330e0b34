-- ===== src/Build/Builds.antt =====
-- What build.rs leaves where its calls succeed.
use jit_streamer_eb.Prelude.{
  ℕ, Bool, true, false, some, String, eq_iff, List, [], ◌∷◌, ◌≡◌, refl, sym, subst, ap, ◌∙◌, All,
}
use jit_streamer_eb.Flow.{next, pure, unwrap, io, ◌>>=◌}
use jit_streamer_eb.FileSystem.{Files, IsThere, is_there, with_file, IsThere-with_file}
use jit_streamer_eb.Build.{
  Fetcher, output_dir, manifest, urls, download, make_dir, unless_there, build,
}

-- Calls that succeed: what they change of the files.
pub record Fetches {W : Type 0} (files : W → Files) (fetcher : Fetcher W) : Type 0 where
  pub looks_for_dir :
      (w : W)
      → (b : Bool) × (v : W) × (fetcher.path_exists output_dir w ≡ (b, v)) × (files v ≡ files w)
  pub looks :
      (w : W)
      → (v : W) × (fetcher.path_exists manifest w ≡ (is_there (files w manifest), v))
        × (files v ≡ files w)
  pub makes :
      (w : W) → (v : W) × (fetcher.create_dir_all output_dir w ≡ (some tt, v)) × (files v ≡ files w)
  pub gets :
      (url : String) (w : W)
      → (response : fetcher.Response) × (v : W) × (fetcher.get url w ≡ (some response, v))
        × (files v ≡ files w)
  pub reads :
      (response : fetcher.Response) (w : W)
      → (text : List ℕ) × (v : W) × (fetcher.bytes response w ≡ (some text, v))
        × (files v ≡ files w)
  pub writes :
      (path : String) (text : List ℕ) (w : W)
      → (v : W) × (fetcher.write path text w ≡ (some tt, v))
        × (files v ≡ with_file path text (files w))

-- By whether the manifest was there: nothing has changed, or all the files are there.
abbrev pub Built : Bool → Files → Files → Type 0
Built true before after = after ≡ before
Built false before after = All (λ u. IsThere after (u.1)) urls

module _ {W : Type 0} {files : W → Files} (fetcher : Fetcher W)
    (fetches : Fetches files fetcher) where
  -- Every file of the list is there, and those that were there still are.
  record Downloads (list : List (String × String)) (w : W) : Type 0 where
    left : W
    downloads : download fetcher list w ≡ (next tt, left)
    stay : (q : String) → IsThere (files w) q → IsThere (files left) q
    all : All (λ u. IsThere (files left) (u.1)) list

  download-Downloads : (list : List (String × String)) (w : W) → Downloads list w
  unfolding download io unwrap pure ◌>>=◌
  download-Downloads [] w = record { left = w; downloads = refl; stay = λ q h. h; all = tt }
  download-Downloads ((url, file) ∷ rest) w =
      let (response, w1, got, k1) = fetches.gets url w in
      let (text, w2, read, k2) = fetches.reads response w1 in
      let (w3, written, k3) = fetches.writes file text w2 in
      let later = download-Downloads rest w3 in
      let k = k3 ∙ ap (with_file file text) (k2 ∙ k1) in
      record {
        left = later.left;
        downloads = rw (got, read, written) (later.downloads);
        stay = λ q h.
            later.stay q
              (subst (λ f. IsThere f q) (sym k) (IsThere-with_file file text (files w) q h));
        all = (
          later.stay file
              (subst (λ f. IsThere f file) (sym k) (rw ((eq_iff file file).1 refl) refl)),
          later.all,
        );
      }

  make_dir-keeps :
      (b : Bool) (w : W) → (v : W) × (make_dir fetcher b w ≡ (next tt, v)) × (files v ≡ files w)
  unfolding make_dir io unwrap pure ◌>>=◌
  make_dir-keeps true w = (w, refl, refl)
  make_dir-keeps false w = let (v, made, k) = fetches.makes w in (v, rw made refl, k)

  unless_there-Built :
      (b : Bool) (w : W)
      → (v : W) × (unless_there fetcher b w ≡ (next tt, v)) × Built b (files w) (files v)
  unfolding unless_there pure
  unless_there-Built true w = (w, refl, refl)
  unless_there-Built false w = let d = download-Downloads urls w in (d.left, d.downloads, d.all)

  -- On a host whose calls succeed the build script comes to its end: if there is a
  -- BuildManifest.plist, it has changed no file, whatever else is missing; if not, all three
  -- files of the image are there.
  pub build-Built :
      (w : W)
      → (v : W) × (build fetcher w ≡ (next tt, v))
        × Built (is_there (files w manifest)) (files w) (files v)
  unfolding build io ◌>>=◌
  build-Built w =
      let (b, w1, looked, k1) = fetches.looks_for_dir w in
      let (w2, made, k2) = make_dir-keeps b w1 in
      let (w3, found, k3) = fetches.looks w2 in
      let (w4, ended, built) = unless_there-Built (is_there (files w2 manifest)) w3 in
      (
        w4,
        rw (looked, made, found) ended,
        subst (λ f. Built (is_there (f manifest)) f (files w4)) (k2 ∙ k1)
            (subst (λ f. Built (is_there (files w2 manifest)) f (files w4)) k3 built),
      )
