-- ===== src/DataLogger/Delivery.antt =====
-- datalogger.py: what is remembered as sent, and what is sent again.
use solar_monitor.Prelude.{
  ◌≡◌, String, Bool, true, false, ◌&&◌, ltb, Option, none, some, List, [], ◌∷◌, if◌then◌else◌,
  Option-cases, inl, inr,
}
use solar_monitor.Numbers.{Num}
use solar_monitor.DataLogger.{find, assign, World}
use solar_monitor.DataLogger.Log.{
  Answer, status_code, request_exception, Entry, DataLogger, Sent, post, send_to_server, entry_of,
  deliver, is_unchanged, log,
}
use solar_monitor.DataLogger.Sinks.{find-assign}

-- the answer of all sinks together
abbrev pub is_delivered : Option Bool → Bool
is_delivered none = false
is_delivered (some delivered) = delivered

-- what the web server is sent behind that, where there is one
abbrev pub posts {ℓ} : {V : Type ℓ} → String → String → V → Bool → Option Bool → List (Sent V)
posts device var val has_url none = []
posts device var val false (some delivered) = []
posts device var val true (some delivered) = post device var val ∷ []

-- Every sink that there is accepts the value.
abbrev pub accepted : Option Bool → Bool → Answer → Bool
accepted none has_url answer = false
accepted (some delivered) false answer = delivered
accepted (some delivered) true (status_code code) = delivered && ltb code 400
accepted (some delivered) true request_exception = false

module _ {ℓ κ} {T : Type ℓ} {V : Type κ} ⦃n : Num T⦄ where
  -- the logger when the entry of a variable is there
  abbrev pub with_entry : T → String → String → DataLogger T V → DataLogger T V
  with_entry ts device var l = record l {
    logdata = assign device var (entry_of ts device var l) l.logdata;
  }

  deliver-entry :
      (w : World T) (answer : Answer) (ts : T) (device var : String) (val : V) (refresh : Bool)
      → (l : DataLogger T V) (e : Entry T V) → find device var l.logdata ≡ some e
      → find device var (deliver w answer ts device var val refresh l).0.logdata
        ≡ some (
            if is_delivered (send_to_server w answer device var val refresh l).2
            then record { ts = ts; value = some val }
            else e)
  unfolding deliver
  deliver-entry w answer ts device var val refresh l e h =
      elim (Option-cases (send_to_server w answer device var val refresh l).2) [
        | inl p ↦ rw p h
        | inr (true, p) ↦
            rw p (find-assign device var (record { ts = ts; value = some val }) l.logdata)
        | inr (false, p) ↦ rw p h
      ]

  log-new :
      (same : V → V → Bool) (w : World T) (answer : Answer) (ts now : T) (device var : String)
      → (val : V) (l : DataLogger T V)
      → is_unchanged same val (entry_of ts device var l).value ≡ false
      → log same w answer ts now device var val l
        ≡ deliver w answer ts device var val false (with_entry ts device var l)
  unfolding log
  log-new same w answer ts now device var val l h = rw h

  remembered :
      (same : V → V → Bool) (w : World T) (answer : Answer) (ts now : T) (device var : String)
      → (val : V) (l : DataLogger T V)
      → is_unchanged same val (entry_of ts device var l).value ≡ false
      → find device var (log same w answer ts now device var val l).0.logdata
        ≡ some (
            if is_delivered
              (send_to_server w answer device var val false (with_entry ts device var l)).2
            then record { ts = ts; value = some val }
            else entry_of ts device var l)
  unfolding log
  remembered same w answer ts now device var val l h = rw h (
      deliver-entry w answer ts device var val false (with_entry ts device var l)
        (entry_of ts device var l) (find-assign device var (entry_of ts device var l) l.logdata))

  kept_entry :
      (same : V → V → Bool) (ts : T) (e : Entry T V) (val : V) (l : DataLogger T V)
      (device var : String)
      → find device var l.logdata ≡ some e
      → is_unchanged same val e.value ≡ false
      → is_unchanged same val (entry_of ts device var l).value ≡ false
  kept_entry same ts e val l device var kept h = rw kept h

  -- A value that was sent and not delivered is sent again by the next reading that brings it,
  -- however soon that is.
  pub log-resends :
      (same : V → V → Bool) (w w' : World T) (answer answer' : Answer) (ts now ts' now' : T)
      → (device var : String) (val : V) (l : DataLogger T V)
      → is_unchanged same val (entry_of ts device var l).value ≡ false
      → is_delivered (send_to_server w answer device var val false (with_entry ts device var l)).2
        ≡ false
      → let l' = (log same w answer ts now device var val l).0 in
        log same w' answer' ts' now' device var val l'
        ≡ deliver w' answer' ts' device var val false (with_entry ts' device var l')
  log-resends same w w' answer answer' ts now ts' now' device var val l h refused =
      let l' = (log same w answer ts now device var val l).0 in
      let kept : find device var l'.logdata ≡ some (entry_of ts device var l) =
        rw (remembered same w answer ts now device var val l h, refused) in
      log-new same w' answer' ts' now' device var val l'
        (kept_entry same ts' (entry_of ts device var l) val l' device var kept h)
