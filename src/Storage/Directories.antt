-- ===== src/Storage/Directories.antt =====
-- The directories that src/storage.c makes.
use rebuild.Base.{◌≡◌, ◌⊎◌, ◌++◌, Option, some, Bytes}
use rebuild.Base.{none, ◌≢◌}
use rebuild.Storage.{directory, refused, Os, IsOs, IsShared, Storage, Kind}
use rebuild.Storage.{rebuild_name, traces_name, objects_name, tmp_name}

module _ (os : Os) (laws : IsOs os) (shared : IsShared os) where
  abbrev pub IsDirectory : os.Disk → Bytes → Type 0
  IsDirectory d path = os.stat d path ≡ some directory

  -- Nothing that was there is gone.
  abbrev Keeps : os.Disk → os.Disk → Type 0
  Keeps d d' = (q : Bytes) → IsDirectory d q → IsDirectory d' q

  -- Why no directory could be made at a path: something else stands there, or `mkdir` failed.
  abbrev pub IsBlamed : os.Disk → Bytes → Type 0
  IsBlamed d' path =
      ((k : Kind) × (os.stat d' path ≡ some k) × (k ≢ directory))
      ⊎ ((d : os.Disk) × (os.stat d path ≡ none) × (os.mkdir d path ≡ (refused, d')))

  -- A directory on the way to this path, or the path itself.
  abbrev pub IsBlamedOn : os.Disk → Bytes → Type 0
  IsBlamedOn d path = (dir : Bytes) × (rest : Bytes) × (dir ++ rest ≡ path) × IsBlamed d dir

  -- The four directories of `storage_init` once the base directory is known.
  abbrev pub HasDirectories : os.Disk → Storage → Type 0
  HasDirectories d s =
      IsDirectory d s.base_dir
      × IsDirectory d s.traces_dir
      × IsDirectory d s.objects_dir
      × IsDirectory d s.tmp_dir

  abbrev made_at : Bytes → Storage
  made_at base_dir = record {
    base_dir = base_dir;
    traces_dir = base_dir ++ traces_name;
    objects_dir = base_dir ++ objects_name;
    tmp_dir = base_dir ++ tmp_name;
  }

  -- What `storage_init` has done with this base directory.
  abbrev pub IsInit : Bytes → Option Storage × os.Disk → Type 0
  IsInit base_dir (none, d) =
      IsBlamedOn d base_dir
      ⊎ (IsBlamed d (base_dir ++ traces_name)
          ⊎ (IsBlamed d (base_dir ++ objects_name) ⊎ IsBlamed d (base_dir ++ tmp_name)))
  IsInit base_dir (some s, d) = (s ≡ made_at base_dir) × HasDirectories d s

  -- What `storage_init` returns, with the directory for data if the environment names one.
  abbrev pub IsInitIn : Option Bytes → Option Storage × os.Disk → Type 0
  IsInitIn none r = r.0 ≡ none
  IsInitIn (some xdg_data_home) r = IsInit (xdg_data_home ++ rebuild_name) r
