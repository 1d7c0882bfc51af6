-- ===== src/Configuration/Loaded.antt =====
-- monitor_app.py: what load_config leaves of the file.
use solar_monitor.Prelude.{
  ◌≡◌, refl, ap, ◌∙◌, sym, String, Bool, true, false, Option, none, some, ◌&&◌, if◌then◌else◌,
  str_eq, str_eq_iff, Bool-cases, inl, inr,
}
use solar_monitor.Prelude.Dict.{lookup, insert, lookup-insert}
use solar_monitor.Prelude.Words.{truthy}
use solar_monitor.Configuration.{
  Options, Configuration, or_default, get, set_option, read_ok, put_adapter, put_debug, load_config,
}

or_default-if :
    (config : Configuration) (o : String) (same : Bool) (value : String) (old : Option String)
    → or_default config o (if same then some value else old)
      ≡ (if same then some value else or_default config o old)
or_default-if config o true value old = refl
or_default-if config o false value old = refl

-- the value of an option behind an assignment to one
get-set_option :
    (section option value s o : String) (config : Configuration) (options : Options)
    → lookup section config.sections ≡ some options
    → get (set_option section option value config) s o
      ≡ (if str_eq section s && str_eq option o then some value else get config s o)
unfolding get set_option
get-set_option section option value s o config options there =
    let changed = insert option value options in
    elim (Bool-cases (str_eq section s)) [
      | inl p ↦
          let at : lookup s config.sections ≡ some options =
            ap (λ k. lookup k config.sections) (sym ((str_eq_iff section s).0 p)) ∙ there in
          rw
            (
              there,
              lookup-insert section s changed config.sections,
              p,
              lookup-insert option o value options,
              at,
            )
            (or_default-if config o (str_eq option o) value (lookup o options))
      | inr p ↦ rw (there, lookup-insert section s changed config.sections, p) refl
    ]

-- the file's value, with the options of the command line over it
abbrev pub overridden : Option String → Bool → String → String → Option String → Option String
overridden adapter debug s o old =
    if debug && (str_eq "monitor" s && str_eq "debug" o) then some "1" else elim adapter [
      | none ↦ old
      | some a ↦ if str_eq "monitor" s && str_eq "adapter" o then some a else old
    ]

-- the [monitor] section is still there
lookup-put_adapter :
    (adapter : Option String) (config : Configuration) (options : Options)
    → lookup "monitor" config.sections ≡ some options
    → (options' : Options) × (lookup "monitor" (put_adapter adapter config).sections
        ≡ some options')
unfolding set_option
lookup-put_adapter none config options h = (options, h)
lookup-put_adapter (some a) config options h = (
  insert "adapter" a options,
  rw (h, lookup-insert "monitor" "monitor" (insert "adapter" a options) config.sections) refl,
)

get-put_adapter :
    (adapter : Option String) (config : Configuration) (options : Options) (s o : String)
    → lookup "monitor" config.sections ≡ some options
    → get (put_adapter adapter config) s o ≡ overridden adapter false s o (get config s o)
get-put_adapter none config options s o h = refl
get-put_adapter (some a) config options s o h =
    get-set_option "monitor" "adapter" a s o config options h

get-put_debug :
    (debug : Bool) (config : Configuration) (options : Options) (s o : String)
    → lookup "monitor" config.sections ≡ some options
    → get (put_debug debug config) s o ≡ overridden none debug s o (get config s o)
get-put_debug false config options s o h = refl
get-put_debug true config options s o h = get-set_option "monitor" "debug" "1" s o config options h

-- A file with a [monitor] section is loaded, and every option of every section is what the file
-- says, but for the adapter and the debug flag of [monitor] where the command line has one.
pub load_config-get :
    (config : Configuration) (adapter : Option String) (debug : Bool) (options : Options)
    → lookup "monitor" config.sections ≡ some options
    → (loaded : Configuration) × (load_config (read_ok config) adapter debug ≡ some loaded)
      × ((s o : String) → get loaded s o ≡ overridden (truthy adapter) debug s o (get config s o))
unfolding load_config
load_config-get config adapter debug options h =
    let a = truthy adapter in
    let (options', h') = lookup-put_adapter a config options h in
    (
      put_debug debug (put_adapter a config),
      rw h refl,
      λ s o.
          get-put_debug debug (put_adapter a config) options' s o h'
          ∙ ap (overridden none debug s o) (get-put_adapter a config options s o h),
    )
