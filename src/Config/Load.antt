-- ===== src/Config/Load.antt =====
-- internal/config/config.go: Load, ParseBytes and LoadDirectory. Files, the environment and the YAML
-- library enter as functions.
pub mod Laws
use the_redirector.Base.{
  ℕ, zero, suc, Bool, true, false, ◌&&◌, ◌||◌, not, Option, none, some, List, [], ◌∷◌, ◌++◌, Bytes,
  lit, is_empty, ℤ, pos, eqb_ℤ, if◌then◌else◌, ltb, ◌==◌, has_suffix, Result, ok, err, ◌>>=◌, ◌>>◌,
  fail_if,
}
use the_redirector.Base.Sort.{sort_stable}
use the_redirector.Config.{Engine, Rule, ServerConfig, DefaultConfig, StatsConfig, Config}
use the_redirector.Config.Defaults.{apply_defaults}
use the_redirector.Config.Validate.{ValidateError, validate}

-- What the functions take from outside; `none` is an error of the call.
pub record Files (R F : Type 0) : Type 0 where
  -- os.Stat(path), with IsDir of what it finds
  pub stat : Bytes → Option Bool
  -- filepath.WalkDir: the paths that are no directories
  pub walk : Bytes → Option (List Bytes)
  -- os.ReadFile
  pub read_file : Bytes → Option Bytes
  -- os.ExpandEnv
  pub expand_env : Bytes → Bytes
  -- yaml.Unmarshal into a new Config
  pub unmarshal : Bytes → Option (Config R F)

-- var merged Config: the Config with no field set
abbrev pub zero_config : {R F : Type 0} → Config R F
zero_config = record {
  version = [];
  server = record {
    port = pos 0;
    management_port = pos 0;
    read_timeout = [];
    write_timeout = [];
    idle_timeout = [];
    max_connections = pos 0;
  };
  defaults = record { status_code = pos 0; preserve_query = false; headers = [] };
  stats = none;
  auth = none;
  tracing = none;
  rate_limit = none;
  rules = [];
}

pub data LoadError : Type 0 where
  reading_file : Bytes → LoadError
  parsing : Bytes → LoadError
  accessing_path : LoadError
  walking_directory : LoadError
  validating : ValidateError → LoadError

-- `<` on strings, by bytes
bytes_less : Bytes → Bytes → Bool
bytes_less [] [] = false
bytes_less [] (b ∷ t) = true
bytes_less (a ∷ s) [] = false
bytes_less (a ∷ s) (b ∷ t) = ltb a b || ((a == b) && bytes_less s t)

or_fail : {A : Type 0} → Option A → LoadError → Result LoadError A
or_fail none e = err e
or_fail (some a) e = ok a

wrap_validate : {A : Type 0} → Result ValidateError A → Result LoadError A
wrap_validate (ok a) = ok a
wrap_validate (err e) = err (validating e)

is_yaml : Bytes → Bool
is_yaml p = has_suffix p (lit ".yaml") || has_suffix p (lit ".yml")

filter_paths : (Bytes → Bool) → List Bytes → List Bytes
filter_paths p [] = []
filter_paths p (x ∷ xs) = if p x then x ∷ filter_paths p xs else filter_paths p xs

-- The files that the loop reads, in its order.
yaml_paths : List Bytes → List Bytes
unfolding bytes_less is_yaml filter_paths
yaml_paths found = sort_stable bytes_less (filter_paths is_yaml found)

module _ {R F : Type 0} where
  -- What the loop of LoadDirectory does with the configuration of one file.
  pub merge_file : Config R F → Config R F → Config R F
  merge_file merged cfg = record merged {
    rules = merged.rules ++ cfg.rules;
    server =
        if eqb_ℤ merged.server.port (pos 0) && not (eqb_ℤ cfg.server.port (pos 0))
        then cfg.server
        else merged.server;
    defaults =
        if not (eqb_ℤ cfg.defaults.status_code (pos 0)) then cfg.defaults else merged.defaults;
    stats = elim cfg.stats [ some s ↦ some s | none ↦ merged.stats ];
    version =
        if is_empty merged.version && not (is_empty cfg.version)
        then cfg.version
        else merged.version;
  }

module _ {R F : Type 0} (engine : Engine R) (files : Files R F) where
  finish : Config R F → Result LoadError (Config R F)
  unfolding wrap_validate
  finish c = wrap_validate (validate engine (apply_defaults c))

  -- ParseBytes
  unfoldable pub parse_bytes : Bytes → Result LoadError (Config R F)
  unfolding or_fail finish
  parse_bytes text = do
    cfg ← or_fail (files.unmarshal (files.expand_env text)) (parsing [])
    finish cfg

  -- Load
  unfoldable pub load : Bytes → Result LoadError (Config R F)
  unfolding or_fail parse_bytes
  load path = do text ← or_fail (files.read_file path) (reading_file path); parse_bytes text

  -- One file of the loop, read and parsed.
  read_config : Bytes → Result LoadError (Config R F)
  unfolding or_fail
  read_config file = do
    text ← or_fail (files.read_file file) (reading_file file)
    or_fail (files.unmarshal (files.expand_env text)) (parsing file)

  merge_files : Config R F → List Bytes → Result LoadError (Config R F)
  unfolding merge_file read_config
  merge_files merged [] = ok merged
  merge_files merged (file ∷ rest) = do
    cfg ← read_config file
    merge_files (merge_file merged cfg) rest

  load_files : Bytes → Result LoadError (Config R F)
  unfolding or_fail merge_files read_config finish yaml_paths
  load_files path = do
    found ← or_fail (files.walk path) walking_directory
    merged ← merge_files zero_config (yaml_paths found)
    finish merged

  -- LoadDirectory
  unfoldable pub load_directory : Bytes → Result LoadError (Config R F)
  unfolding or_fail load_files read_config finish
  load_directory path = do
    is_dir ← or_fail (files.stat path) accessing_path
    if is_dir then load_files path else load path
