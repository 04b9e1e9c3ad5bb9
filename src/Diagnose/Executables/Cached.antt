-- ===== src/Diagnose/Executables/Cached.antt =====
-- The cache of executables gives what a scan of PATH gives.
use solomon.Prelude.{List, [], Text}
use solomon.Daemon.Tables.{find}
use solomon.Diagnose.Executables.{
  FileSystem, CacheEntry, Cache, scan_path, path_signature, cache_key, or_scan,
  executable_names_for,
}

module _ (fs : FileSystem) (path_ext : Text) where
  -- The caches that lookups fill, from an empty one, while the file system stays as it is.
  pub data Filled : Cache → Type 0 where
    empty : Filled []
    looked_up :
        {cache : Cache} (path : Text)
        → Filled cache
        → Filled (executable_names_for fs cache path_ext path).0

  abbrev names_in : Cache → Text → List Text
  names_in cache path =
      (or_scan fs cache path_ext path (path_signature fs path)
        (find cache (cache_key fs path_ext path))).1

  fresh_entry : Text → CacheEntry
  fresh_entry path = record {
    signature = path_signature fs path;
    names = scan_path fs path_ext path;
  }
