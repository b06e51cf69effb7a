-- ===== src/Config/File/SavesLoads.antt =====
-- config/config.go: what is saved is what is loaded.
use juren_cluster.Prelude.{◌≡◌, refl, ap, ◌∙◌, some, Bytes}
use juren_cluster.Outcome.{ok, ◌>>=◌}
use juren_cluster.Oid.{Oid}
use juren_cluster.Config.{Config, new_empty_config}
use juren_cluster.Config.File.{Host, save, load, new_config_from_file, opened, loaded, unmarshalled}
use juren_cluster.Config.Json.{to_json}
use juren_cluster.Json.{Json}
use juren_cluster.Config.Json.RoundTrip.{IsSavable, of_json-to_json}

-- A file that is written can be read, and the text of JSON is read back.
pub record HostLaws (h : Host) : Type 0 where
  pub read-write :
      (files : h.Files) (path : Bytes) (content : h.Text)
      → (h.write_file files path content).1 ≡ ok tt
      → h.read_file (h.write_file files path content).0 path ≡ ok content
  pub parse-print : (json : Json) → h.parse (h.print json) ≡ ok json

module _ (h : Host) (laws : HostLaws h) where
  load-save :
      (c c' : Config) (files : h.Files)
      → IsSavable c
      → c'.config_file ≡ c.config_file
      → (save h c files).1 ≡ ok tt
      → load h c' (save h c files).0 ≡ (c, ok tt)
  unfolding save load unmarshalled
  load-save c c' files s same saved =
      ap (λ path. unmarshalled h c' (h.read_file (save h c files).0 path >>= h.parse)) same
      ∙ rw
          (
            laws.read-write files c.config_file (h.print (to_json c)) saved,
            laws.parse-print (to_json c),
          )
          (of_json-to_json c c' s ∙ ap (λ path. (record c { config_file = path }, ok tt)) same)

  opened-save :
      (c c' : Config) (files : h.Files)
      → IsSavable c
      → c'.config_file ≡ c.config_file
      → (save h c files).1 ≡ ok tt
      → opened h (some c') (save h c files).0 ≡ some (ok c)
  unfolding opened loaded
  opened-save c c' files s same saved = rw (load-save c c' files s same saved)

  -- If what is written to a file can be read from it and the text of JSON is read back: once a
  -- configuration that has an identifier for its node and durations that fit an int64 is saved
  -- without an error, a configuration from its file is that configuration, whatever identifier
  -- was drawn for the new one.
  pub new_config_from_file-save :
      (c : Config) (files : h.Files) (id : Oid)
      → IsSavable c
      → (save h c files).1 ≡ ok tt
      → new_config_from_file h c.config_file (ok id) (save h c files).0 ≡ some (ok c)
  unfolding new_config_from_file new_empty_config
  new_config_from_file-save c files id s saved = opened-save c _ files s refl saved
