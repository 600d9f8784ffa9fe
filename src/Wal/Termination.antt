-- ===== src/Wal/Termination.antt =====
-- The loop of recover (reference/coredrp_ref/wal.py) ends: the fuel of the model is always enough.
use core_drp.Prelude.{
  ℕ, zero, suc, ◌<◌, ◌≡◌, ◌≢◌, refl, ap, arith, Bool, true, false, Option, some, none, [], ◌∷◌,
  length, Bytes, from_hex,
}
use core_drp.Result.{
  Code, Exception, Result, ok, raise, value_error, decode_error, out_of_fuel, require, ◌>>=◌, ◌>>◌,
}
use core_drp.Wire.{uid, genesis, validate, payload_boundary, chain}
use core_drp.Wire.Messages.{ParsedRecord, parsed, no_record, other_json, Event, Codec, LogRecord}
use core_drp.Wal.{last_hash}
use core_drp.Wal.Frame.{read_frame, read_frame-shorter}
use core_drp.Wal.Recover.{record_or_raise, Scan, or_raise, extend, read_entry, scan_from, scan}

abbrev pub HasFuel {ℓ} : {A : Type ℓ} → Result A → Type ℓ
HasFuel r = r ≢ raise out_of_fuel

require-HasFuel : (t : Bool) (code : Code) → HasFuel (require t code)
require-HasFuel true code h = cc
require-HasFuel false code h = cc

ok-HasFuel {ℓ} : {A : Type ℓ} (a : A) → HasFuel (ok a)
ok-HasFuel a h = cc

raise-inj {ℓ} : {A : Type ℓ} {x y : Exception} → ◌≡◌ {A = Result A} (raise x) (raise y) → x ≡ y
raise-inj h = cc

-- A step with fuel before steps with fuel.
bind-HasFuel {ℓ κ} :
    {A : Type ℓ} {B : Type κ} (m : Result A) (f : A → Result B)
    → HasFuel m
    → ((a : A) → m ≡ ok a → HasFuel (f a))
    → HasFuel (m >>= f)
bind-HasFuel (ok a) f h k e = k a refl e
bind-HasFuel (raise x) f h k e = h (ap raise (raise-inj e))

or_raise-HasFuel {ℓ} :
    {A : Type ℓ} (o : Option A) (x : Exception) → x ≢ out_of_fuel → HasFuel (or_raise o x)
or_raise-HasFuel none x h e = h (raise-inj e)
or_raise-HasFuel (some a) x h e = cc

guarded-HasFuel {ℓ} :
    {A : Type ℓ} (t : Bool) (code : Code) (r : Result A) → HasFuel r → HasFuel (require t code >> r)
guarded-HasFuel true code r h e = h e
guarded-HasFuel false code r h e = cc

genesis-HasFuel : (sender epoch : Bytes) → HasFuel (genesis sender epoch)
unfolding genesis uid
genesis-HasFuel sender epoch h = ground (arith, h)

read_frame-HasFuel : (b : Bytes) → HasFuel (read_frame b)
unfolding read_frame
read_frame-HasFuel b h = ground (arith, h)

module _ ⦃c : Codec⦄ where
  validate-HasFuel : (e : Event) → HasFuel (validate e)
  unfolding validate payload_boundary
  validate-HasFuel e h = ground (arith, h)

  chain-HasFuel :
      (previous sender epoch : Bytes) (e : Event) → HasFuel (chain previous sender epoch e)
  unfolding chain
  chain-HasFuel previous sender epoch e =
      bind-HasFuel (validate e) _ (validate-HasFuel e) (λ _ _. ok-HasFuel _)

  module _ (sender epoch : Bytes) where
    record_or_raise-HasFuel : (x : ParsedRecord) → HasFuel (record_or_raise x)
    record_or_raise-HasFuel (parsed x) h = ok-HasFuel x h
    record_or_raise-HasFuel no_record h = cc h
    record_or_raise-HasFuel other_json h = cc h

    extend-HasFuel : (x : LogRecord) (e : Event) (s : Scan) → HasFuel (extend sender epoch x e s)
    unfolding extend
    extend-HasFuel x e s h =
        ground (arith, h, validate-HasFuel e, chain-HasFuel (last_hash s.hashes) sender epoch e)

    read_entry-HasFuel : (raw : Bytes) (s : Scan) → HasFuel (read_entry sender epoch raw s)
    unfolding read_entry
    read_entry-HasFuel raw s =
        bind-HasFuel (record_or_raise (c.parse_record raw)) _
          (record_or_raise-HasFuel (c.parse_record raw))
          (λ x _.
            bind-HasFuel (or_raise (from_hex x.event) value_error) _
              (or_raise-HasFuel (from_hex x.event) value_error (λ h. cc h))
              (λ bytes _.
                bind-HasFuel (or_raise (c.parse_event bytes) decode_error) _
                  (or_raise-HasFuel (c.parse_event bytes) decode_error (λ h. cc h))
                  (λ e _. extend-HasFuel x e s)))

    scan_from-HasFuel :
        (fuel : ℕ) (b : Bytes) (s : Scan)
        → length b < fuel
        → HasFuel (scan_from sender epoch fuel b s)
    unfolding scan_from
    scan_from-HasFuel zero b s h = absurd (omega arith)
    scan_from-HasFuel (suc fuel) [] s h = ok-HasFuel s
    scan_from-HasFuel (suc fuel) (x ∷ b) s h =
        bind-HasFuel (read_frame (x ∷ b)) _ (read_frame-HasFuel (x ∷ b)) (λ found read.
          bind-HasFuel (read_entry sender epoch found.0 s) _ (read_entry-HasFuel found.0 s) (λ s' _.
            scan_from-HasFuel fuel found.1 s'
              (omega (arith, h, read_frame-shorter (x ∷ b) found.0 found.1 read))))

  -- A scan ends for every file: the loop never runs out of the fuel of the model, whatever the file
  -- holds.
  pub scan-HasFuel : (sender epoch log : Bytes) → HasFuel (scan sender epoch log)
  unfolding scan
  scan-HasFuel sender epoch log =
      bind-HasFuel (genesis sender epoch) _ (genesis-HasFuel sender epoch)
        (λ root _. scan_from-HasFuel sender epoch (suc (length log)) log _ (omega arith))
