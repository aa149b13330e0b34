-- ===== src/Build/Tests.antt =====
-- A build without the files of the image.
use jit_streamer_eb.Prelude.{◌≡◌, refl, false, some, String, [], ◌∷◌}
use jit_streamer_eb.Flow.{next}
use jit_streamer_eb.FileSystem.{is_there}
use jit_streamer_eb.Start.Tests.{Disk, files}
use jit_streamer_eb.Build.{Fetcher, build}
use jit_streamer_eb.Build.Builds.{Fetches, Built, build-Built}

abbrev fetcher : Fetcher Disk
fetcher = record {
  Response = String;
  path_exists = λ path disk. (is_there (files disk path), disk);
  create_dir_all = λ path disk. (some tt, disk);
  get = λ url disk. (some url, disk);
  bytes = λ response disk. (some (7 ∷ []), disk);
  write = λ path text disk. (some tt, (path, text) ∷ disk);
}

fetches : Fetches files fetcher
fetches = record {
  looks_for_dir = λ w. (is_there (files w "DDI"), w, refl, refl);
  looks = λ w. (w, refl, refl);
  makes = λ w. (w, refl, refl);
  gets = λ url w. (url, w, refl, refl);
  reads = λ response w. (7 ∷ [], w, refl, refl);
  writes = λ path text w. ((path, text) ∷ w, refl, refl);
}

build-Built_example :
    (v : Disk) × (build fetcher [] ≡ (next tt, v)) × Built false (files []) (files v)
build-Built_example = build-Built fetcher fetches []
