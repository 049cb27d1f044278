-- ===== src/Main/Boot.antt =====
-- Which environments the program starts with.
use rkn_checker.Prelude.{
  ◌≡◌, refl, ok_of_is_ok, ◌↔◌, inl, inr, true, [], Option, Result, ok, err, is_ok, some, none,
  Bool-cases, Result-cases, not,
}
use rkn_checker.Text.{Bytes, bytes, bytes_eq, is_empty}
use rkn_checker.Registry.Client.{Network, new_client, create_sources, create_source}
use rkn_checker.Configuration.{
  Environment, Config, ConfigError, load_config, validate, get_sources, default_source,
  LoggingConfig, get_env_string,
}
use rkn_checker.Configuration.Valid.{IsValid, IsLevel, validate_iff}
use rkn_checker.Main.{
  Level, debug, info, warn, error, level_of, Logging, setup_logging, BootError,
  invalid_configuration, boot, boot_with, validated, connected,
}

-- The error that main exits with, and the one that Validate asks for.
abbrev pub exit_of : {A : Type 0} → Result BootError A → Option BootError
exit_of (ok a) = none
exit_of (err bad) = some bad

abbrev pub rejection : Result ConfigError Unit → Option BootError
rejection (ok done) = none
rejection (err x) = some (invalid_configuration x)

level_of-IsLevel : (level : Bytes) → IsLevel level → (l : Level) × (level_of level ≡ some l)
unfolding level_of bytes_eq
level_of-IsLevel level (inl (inl same)) = (debug, rw same refl)
level_of-IsLevel level (inl (inr same)) = (info, rw same refl)
level_of-IsLevel level (inr (inl same)) = (warn, rw same refl)
level_of-IsLevel level (inr (inr same)) = (error, rw same refl)

setup_logging-ok :
    (c : LoggingConfig) → IsLevel c.level → (logging : Logging) × (setup_logging c ≡ ok logging)
unfolding setup_logging
setup_logging-ok c valid =
    let (l, good) = level_of-IsLevel c.level valid in
    (record { level = l; json = bytes_eq c.format (bytes "json") }, rw (setup_logging, good))

module _ {E : Type 0} (c : Config) (network : Network E) where
  boot_with-accepted :
      validate c ≡ ok tt
      → is_ok (new_client network c.registry.sources) ≡ true
      → is_ok (boot_with c network) ≡ true
  unfolding boot_with
  boot_with-accepted accepted connects =
      let (logging, logs) = setup_logging-ok c.logging ((validate_iff c).0 accepted).level in
      let (client, reached) = ok_of_is_ok (new_client network c.registry.sources) connects in
      rw (boot_with, validated, accepted, logs, connected, reached)

  boot_with-rejected :
      (x : ConfigError) → validate c ≡ err x → boot_with c network ≡ err (invalid_configuration x)
  unfolding boot_with
  boot_with-rejected x rejects = rw (boot_with, validated, rejects)

module _ {E : Type 0} (e : Environment) (network : Network E) where
  -- The sources of LoadConfig are official ones, so NewClient takes them.
  new_client-get_sources : is_ok (new_client network (get_sources e)) ≡ true
  unfolding new_client create_sources create_source get_sources default_source bytes_eq
  new_client-get_sources =
      elim (Bool-cases (not (is_empty (get_env_string e (bytes "REGISTRY_OFFICIAL_URL") [])))) [
        | inl set ↦ rw set refl
        | inr default ↦ rw default refl
      ]

  boot-accepted : validate (load_config e) ≡ ok tt → is_ok (boot e network) ≡ true
  unfolding boot
  boot-accepted accepted =
      let sources : (load_config e).registry.sources ≡ get_sources e = unfold load_config in refl in
      boot_with-accepted (load_config e) network accepted (rw sources new_client-get_sources)

  -- The program starts exactly where Validate accepts the configuration that LoadConfig gives;
  -- elsewhere it exits with the error of Validate, so the other two exits of main are never taken.
  pub boot_iff :
      (is_ok (boot e network) ≡ true ↔ IsValid (load_config e))
      × (exit_of (boot e network) ≡ rejection (validate (load_config e)))
  boot_iff = elim (Result-cases (validate (load_config e))) [
    | inl (tt, accepted) ↦
        let (app, runs) = ok_of_is_ok (boot e network) (boot-accepted accepted) in
        (
          (λ good. (validate_iff (load_config e)).0 accepted, λ valid. boot-accepted accepted),
          rw (runs, accepted),
        )
    | inr (x, rejects) ↦
        let stops : boot e network ≡ err (invalid_configuration x) =
          unfold boot in boot_with-rejected (load_config e) network x rejects in
        (
          (λ runs. cc (runs, stops), λ valid. cc ((validate_iff (load_config e)).1 valid, rejects)),
          rw (stops, rejects),
        )
  ]
