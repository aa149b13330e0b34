-- ===== src/Build.antt =====
-- build.rs, which downloads the developer disk image before the program is compiled.
pub mod Builds
pub mod Tests
use jit_streamer_eb.Prelude.{ℕ, Bool, true, false, Option, none, some, String, List, [], ◌∷◌}
use Prim.Native.String.{◌++◌}
use jit_streamer_eb.Flow.{Flow, pure, unwrap, io, ◌>>=◌, ◌>>◌}

-- The file system and `reqwest::blocking`. A call whose failure makes the code panic is `none`.
pub record Fetcher (W : Type 0) : Type 1 where
  pub Response : Type 0
  pub path_exists : String → W → Bool × W
  pub create_dir_all : String → W → Option (Unit {0}) × W
  pub get : String → W → Option Response × W
  pub bytes : Response → W → Option (List ℕ) × W
  pub write : String → List ℕ → W → Option (Unit {0}) × W

abbrev pub output_dir : String
output_dir = "DDI"

abbrev image_url : String → String
image_url file =
    "https://github.com/doronz88/DeveloperDiskImage/raw/refs/heads/main/PersonalizedImages/Xcode_iOS_DDI_Personalized/"
    ++ file

abbrev pub manifest : String
manifest = "DDI/BuildManifest.plist"

-- `URLS`, each with its file of `OUTPUT_FILES`.
abbrev pub urls : List (String × String)
urls =
    (image_url "BuildManifest.plist", manifest)
    ∷ (image_url "Image.dmg", "DDI/Image.dmg")
    ∷ (image_url "Image.dmg.trustcache", "DDI/Image.dmg.trustcache")
    ∷ []

module _ {W : Type 0} (fetcher : Fetcher W) where
  -- The loop over the URLs.
  unfoldable pub download : List (String × String) → Flow W Unit Unit
  download [] = pure tt
  download ((url, file) ∷ rest) = do
    got ← io (fetcher.get url)
    response ← unwrap got
    read ← io (fetcher.bytes response)
    bytes ← unwrap read
    written ← io (fetcher.write file bytes)
    unwrap written
    download rest

  unfoldable pub make_dir : Bool → Flow W Unit Unit
  make_dir true = pure tt
  make_dir false = do made ← io (fetcher.create_dir_all output_dir); unwrap made

  unfoldable pub unless_there : Bool → Flow W Unit Unit
  unless_there true = pure tt
  unless_there false = download urls

  unfoldable pub build : Flow W Unit Unit
  build = do
    has_dir ← io (fetcher.path_exists output_dir)
    make_dir has_dir
    there ← io (fetcher.path_exists manifest)
    unless_there there
