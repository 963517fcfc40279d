-- ===== src/Config/Load/Laws.antt =====
-- What a configuration that was merged from a directory holds.
use the_redirector.Base.{
  ◌≡◌, true, Option, none, some, List, [], ◌∷◌, Bytes, Result, ok, err, >>=-eq-ok, arith, map,
  subst, sym, Bool-cases, inl, inr,
}
use the_redirector.Config.{Engine, Config}
use the_redirector.Config.Defaults.{apply_defaults}
use the_redirector.Config.Validate.{ValidateError, validate}
use the_redirector.Config.Validate.Laws.{
  RulesAreValid, compiled, validate_iff, AreCompiled, RulesAreValid-compiled,
}
use the_redirector.Config.Load.{
  Files, LoadError, walking_directory, zero_config, merge_file, yaml_paths, finish, wrap_validate,
  or_fail, read_config, merge_files, load_files, load, parse_bytes, load_directory,
}

wrap_validate-eq-ok :
    {A : Type 0} (v : Result ValidateError A) {a : A} → wrap_validate v ≡ ok a → v ≡ ok a
unfolding wrap_validate
wrap_validate-eq-ok (ok a) h = ground arith
wrap_validate-eq-ok (err e) h = cc

or_fail-eq-ok :
    {A : Type 0} (o : Option A) (e : LoadError) {a : A} → or_fail o e ≡ ok a → o ≡ some a
unfolding or_fail
or_fail-eq-ok none e h = cc
or_fail-eq-ok (some a) e h = ground arith

module _ {R F : Type 0} (engine : Engine R) (files : Files R F) where
  -- What reading further files leaves alone.
  abbrev SameSecurity : Config R F → Config R F → Type 0
  SameSecurity c d = (c.auth ≡ d.auth) × (c.rate_limit ≡ d.rate_limit) × (c.tracing ≡ d.tracing)

  merge_files-SameSecurity :
      (merged : Config R F) (paths : List Bytes) (c : Config R F)
      → merge_files engine files merged paths ≡ ok c
      → SameSecurity c merged
  unfolding merge_files
  merge_files-SameSecurity merged [] c h = ground arith
  merge_files-SameSecurity merged (p ∷ paths) c h =
      let (cfg, read, h1) = >>=-eq-ok (read_config engine files p) _ h in
      let same = merge_files-SameSecurity (merge_file merged cfg) paths c h1 in same

  finish_sound :
      (c c' : Config R F)
      → finish engine files c ≡ ok c'
      → RulesAreValid engine (apply_defaults c).rules
        × (c'
            ≡ record (apply_defaults c) { rules = map (compiled engine) (apply_defaults c).rules })
  unfolding finish
  finish_sound c c' h =
      (validate_iff engine (apply_defaults c) c').0
        (wrap_validate-eq-ok (validate engine (apply_defaults c)) h)

  loaded_files :
      (path : Bytes) (c : Config R F)
      → files.stat path ≡ some true
      → load_directory engine files path ≡ ok c
      → load_files engine files path ≡ ok c
  unfolding load_directory or_fail
  loaded_files path c dir h = rw dir at h

  -- A configuration that loads from a directory has no authentication, rate limits or tracing,
  -- whatever its files say.
  pub load_directory-drops_security :
      (path : Bytes) (c : Config R F)
      → files.stat path ≡ some true
      → load_directory engine files path ≡ ok c
      → (c.auth ≡ none) × (c.rate_limit ≡ none) × (c.tracing ≡ none)
  unfolding load_directory load_files apply_defaults
  load_directory-drops_security path c dir h =
      let (found, walked, h2) =
        >>=-eq-ok (or_fail (files.walk path) walking_directory) _ (loaded_files path c dir h) in
      let (merged, read, h3) =
        >>=-eq-ok (merge_files engine files zero_config (yaml_paths found)) (finish engine files)
          h2 in
      let (valid, same) = finish_sound merged c h3 in
      ground (arith, merge_files-SameSecurity zero_config (yaml_paths found) merged read)

  AreReady : Config R F → Type 0
  AreReady c = RulesAreValid engine c.rules × AreCompiled engine c.rules

  finish-AreReady : (c c' : Config R F) → finish engine files c ≡ ok c' → AreReady c'
  unfolding AreReady
  finish-AreReady c c' h =
      let (valid, same) = finish_sound c c' h in
      subst (λ (x : Config R F). RulesAreValid engine x.rules × AreCompiled engine x.rules)
        (sym same) (RulesAreValid-compiled engine (apply_defaults c).rules valid)

  parse_bytes-AreReady :
      (text : Bytes) (c : Config R F) → parse_bytes engine files text ≡ ok c → AreReady c
  unfolding parse_bytes
  parse_bytes-AreReady text c h =
      let (cfg, parsed, h1) = >>=-eq-ok (or_fail (files.unmarshal _) _) _ h in
      finish-AreReady cfg c h1

  load-AreReady : (path : Bytes) (c : Config R F) → load engine files path ≡ ok c → AreReady c
  unfolding load
  load-AreReady path c h =
      let (text, read, h1) = >>=-eq-ok (or_fail (files.read_file path) _) _ h in
      parse_bytes-AreReady text c h1

  load_files-AreReady :
      (path : Bytes) (c : Config R F) → load_files engine files path ≡ ok c → AreReady c
  unfolding load_files
  load_files-AreReady path c h =
      let (found, walked, h1) = >>=-eq-ok (or_fail (files.walk path) _) _ h in
      let (merged, read, h2) =
        >>=-eq-ok (merge_files engine files zero_config (yaml_paths found)) (finish engine files)
          h1 in
      finish-AreReady merged c h2

  -- What loads from a file or a directory has at least one rule, no id twice, and only rules that
  -- Validate accepts, and each of these holds the compiled form of its own pattern.
  pub load_directory-AreReady :
      (path : Bytes) (c : Config R F)
      → load_directory engine files path ≡ ok c
      → RulesAreValid engine c.rules × AreCompiled engine c.rules
  unfolding load_directory AreReady
  load_directory-AreReady path c h =
      let (is_dir, found, h1) = >>=-eq-ok (or_fail (files.stat path) _) _ h in
      elim (Bool-cases is_dir) [
        | inl dir ↦ load_files-AreReady path c (rw dir at h1)
        | inr file ↦ load-AreReady path c (rw file at h1)
      ]
