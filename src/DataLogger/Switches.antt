-- ===== src/DataLogger/Switches.antt =====
-- datalogger.py: publishing a switch whose subscription failed.
use solar_monitor.Prelude.{◌≡◌, refl, ap, ◌∙◌, String, true, false, none, some, [], ◌∷◌}
use solar_monitor.Numbers.{Num}
use solar_monitor.DataLogger.{
  find, assign, switch_config, subscribe, state, Mqtt, World, is_switch, create_listener, announce,
  renew_listener, publish,
}
use solar_monitor.DataLogger.Sinks.{find-assign}

module _ {ℓ} {T : Type ℓ} where
  -- the switch after it was announced
  unheard : World T → String → String → Mqtt T → Mqtt T
  unfolding create_listener
  unheard w device var m = record (create_listener w device var m) {
    sensors = assign device var w.monotonic m.sensors;
  }

  unheard-listener :
      (w : World T) (device var : String) (m : Mqtt T)
      → w.subscribes ≡ false
      → (unheard w device var m).listener_created ≡ m.listener_created
  unfolding unheard create_listener
  unheard-listener w device var m raises = rw raises

  unheard-sensor :
      (w : World T) (device var : String) (m : Mqtt T)
      → find device var (unheard w device var m).sensors ≡ some w.monotonic
  unfolding unheard
  unheard-sensor w device var m = find-assign device var w.monotonic m.sensors

module _ {ℓ κ} {T : Type ℓ} {V : Type κ} ⦃n : Num T⦄ where
  renew-unheard :
      (w : World T) (device var : String) (m : Mqtt T)
      → is_switch var ≡ true
      → find device var m.listener_created ≡ none
      → renew_listener {V = V} w device var m ≡ (m, [], none)
  unfolding renew_listener
  renew-unheard w device var m switch deaf = rw (switch, deaf)

  announce-switch :
      (w : World T) (device var : String) (m : Mqtt T)
      → is_switch var ≡ true
      → announce {V = V} w device var m
        ≡ (unheard w device var m, switch_config device var ∷ subscribe device var ∷ [])
  unfolding announce unheard create_listener
  announce-switch w device var m switch = rw switch

  -- publish of a switch that was announced before and has no listener
  publish-known :
      (w : World T) (device var : String) (val : V) (m : Mqtt T) (t : T)
      → is_switch var ≡ true
      → find device var m.sensors ≡ some t
      → find device var m.listener_created ≡ none
      → publish w device var val false m ≡ (m, state device var val 1 ∷ [], none)
  unfolding publish
  publish-known w device var val m t switch known deaf =
      rw (known, switch, renew-unheard w device var m switch deaf)

  -- publish of a switch that is announced now, and whose subscription raises
  publish-new :
      (w : World T) (device var : String) (val : V) (m : Mqtt T)
      → is_switch var ≡ true
      → find device var m.sensors ≡ none
      → find device var m.listener_created ≡ none
      → w.subscribes ≡ false
      → publish w device var val false m ≡ (
        unheard w device var m,
        switch_config device var ∷ subscribe device var ∷ state device var val 1 ∷ [],
        none,
      )
  unfolding publish
  publish-new w device var val m switch new deaf raises =
      let still : find device var (unheard w device var m).listener_created ≡ none =
        ap (find device var) (unheard-listener w device var m raises) ∙ deaf in
      rw (
        new,
        switch,
        announce-switch w device var m switch,
        renew-unheard w device var (unheard w device var m) switch still,
      )

  -- If the first subscription of a switch raises, publish raises after it has sent the config, the
  -- subscription and the state, and
  -- so does the next publish, whatever the broker then answers, if it is no refresh. That one leaves
  -- the logger's state as it is.
  pub publish-raises :
      (w w' : World T) (device var : String) (val val' : V) (m : Mqtt T)
      → is_switch var ≡ true
      → find device var m.sensors ≡ none
      → find device var m.listener_created ≡ none
      → w.subscribes ≡ false
      → let first = publish w device var val false m in
        (first.2 ≡ none)
        × (first.1 ≡ switch_config device var ∷ subscribe device var ∷ state device var val 1 ∷ [])
        × (publish w' device var val' false first.0 ≡ (first.0, state device var val' 1 ∷ [], none))
  publish-raises w w' device var val val' m switch new deaf raises =
      rw (publish-new w device var val m switch new deaf raises) (
        refl,
        refl,
        publish-known w' device var val' (unheard w device var m) w.monotonic switch
            (unheard-sensor w device var m)
            (ap (find device var) (unheard-listener w device var m raises) ∙ deaf),
      )
