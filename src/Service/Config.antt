-- ===== src/Service/Config.antt =====
-- `LiveSessionConfig` of runtime.py, `ExportLimits` of beacon_export.py and `validate_config` of
-- service.py. A time in seconds is an integer of some unit, and `none` where it is not finite; a path
-- is its text. What `int` reads of a channel's text is an argument, `none` where it raises.
use wlanpi_utilization.Prelude.{
  ℤ, pos, ◌+ℤ◌, ◌*ℤ◌, eq_ℤ, leb_ℤ, ltb_ℤ, Bool, true, false, not, ◌&&◌, ◌||◌, Option, none, some,
  is_some, String, str_eq, Result, ok, value_error, ◌>>=◌, if◌then◌else◌,
}
use wlanpi_utilization.Channel.Frequency.{Band, ghz2_4, other}
use wlanpi_utilization.Channel.Definition.{ChannelWidth, same_width}
use wlanpi_utilization.Capture.Plan.{explicit_channel_definition}
use wlanpi_utilization.Capture.Bands.{channel_to_frequency_mhz}

pub record ExportLimits : Type 0 where
  pub segment_bytes : ℤ
  pub rotation_seconds : Option ℤ
  pub retained_bytes : ℤ
  pub retained_files : ℤ
  pub limit_free_bytes : ℤ
  pub queue_bytes : ℤ
  pub queue_records : ℤ

-- `MIB`
abbrev pub mib : ℤ
mib = pos 1048576

abbrev pub is_positive : ℤ → Bool
is_positive n = ltb_ℤ (pos 0) n

abbrev pub is_negative : ℤ → Bool
is_negative n = ltb_ℤ n (pos 0)

-- `rotation_seconds <= 0 or not math.isfinite(rotation_seconds)`
abbrev pub lacks_rotation : Option ℤ → Bool
lacks_rotation none = true
lacks_rotation (some t) = not (is_positive t)

-- The condition of `ExportLimits.validate`.
unfoldable pub are_invalid : ExportLimits → Bool
are_invalid l =
    not (is_positive l.segment_bytes && is_positive l.queue_bytes && is_positive l.queue_records)
    || lacks_rotation l.rotation_seconds
    || is_negative l.limit_free_bytes
    || is_negative l.retained_bytes
    || is_negative l.retained_files
    || (is_positive l.retained_bytes && ltb_ℤ l.retained_bytes l.segment_bytes)
    || ltb_ℤ (pos 256) l.retained_files
    || ltb_ℤ (pos 4096) l.queue_records
    || ltb_ℤ (pos 256 *ℤ mib) l.queue_bytes

pub data CaptureBackend : Type 0 where
  direct core other_backend : CaptureBackend

abbrev pub same_backend : CaptureBackend → CaptureBackend → Bool
same_backend direct direct = true
same_backend core core = true
same_backend other_backend other_backend = true
same_backend _ _ = false

pub record LiveSessionConfig : Type 0 where
  pub iface : String
  pub netns : Option String
  pub capture_backend : CaptureBackend
  pub core_diagnostics_path : Option String
  pub channel : String
  pub frequency_mhz : Option ℤ
  pub band : Option Band
  pub channel_width : Option ChannelWidth
  pub center_frequency1_mhz : Option ℤ
  pub center_frequency2_mhz : Option ℤ
  pub raw_capture_path : Option String
  pub interval_seconds : ℤ
  pub local_cu : Bool
  pub survey_debug : Bool
  pub stats_csv : Option String
  pub beacons_jsonl : Option String
  pub logging_control_path : Option String
  pub logging_status_path : Option String
  pub initial_logging_enabled : Option Bool
  pub min_free_bytes : ℤ
  pub disk_check_interval_seconds : ℤ
  pub rotation_interval_seconds : ℤ
  pub export_directory : Option String
  pub initial_export_enabled : Bool
  pub export_limits : ExportLimits

-- `resolve_survey_target_frequency_mhz` of live.py.
unfoldable pub resolve_survey_target_frequency_mhz :
    Option ℤ → Option ℤ → Option Band → Result (Option ℤ)
resolve_survey_target_frequency_mhz channel (some frequency) band = ok (some frequency)
resolve_survey_target_frequency_mhz channel none (some band) = do
  frequency ← channel_to_frequency_mhz channel band
  ok (some frequency)
resolve_survey_target_frequency_mhz none none none = ok none
resolve_survey_target_frequency_mhz (some number) none none =
    let frequency = pos 5000 +ℤ number *ℤ pos 5 in
    if leb_ℤ (pos 1) number && leb_ℤ number (pos 14)
    then (channel_to_frequency_mhz (some number) ghz2_4 >>= λ f. ok (some f))
    else if ltb_ℤ (pos 5000) frequency && ltb_ℤ frequency (pos 5925)
    then ok (some frequency)
    else ok none

abbrev pub is_unsupported_band : Option Band → Bool
is_unsupported_band (some other) = true
is_unsupported_band _ = false

abbrev pub is_other_backend : CaptureBackend → Bool
is_other_backend other_backend = true
is_other_backend _ = false

-- The checks before the frequency is resolved.
unfoldable pub check_choices : LiveSessionConfig → Result (Unit {0})
unfolding are_invalid
check_choices c =
    if are_invalid c.export_limits
    then value_error "Invalid beacon export limits"
    else if c.initial_export_enabled && not (is_some c.export_directory)
    then value_error "Beacon export requires an export directory"
    else if is_some c.export_directory && is_some c.raw_capture_path
    then value_error "Use raw diagnostic capture or managed beacon export in a session"
    else if is_other_backend c.capture_backend
    then value_error "Capture backend must be direct or core"
    else if is_unsupported_band c.band
    then value_error "Unsupported band"
    else if is_some c.band && is_some c.frequency_mhz
    then value_error "Use frequency or band/channel, not both"
    else if str_eq c.iface "" || not (is_positive c.interval_seconds)
    then value_error "Interface and positive sampling interval are required"
    else if is_negative c.min_free_bytes
        || not
            (is_positive c.disk_check_interval_seconds && is_positive c.rotation_interval_seconds)
    then value_error "Invalid logging limits"
    else ok tt

-- The checks of the tuning, at the frequency.
unfoldable pub check_tuning : LiveSessionConfig → Option ℤ → Result (Unit {0})
check_tuning c none = value_error "Specify a band or unambiguous frequency"
check_tuning c (some frequency) = elim c.channel_width [
  | some width ↦ do
    definition ←
        explicit_channel_definition frequency width c.center_frequency1_mhz c.center_frequency2_mhz
    ok tt
  | none ↦
      if is_some c.center_frequency1_mhz || is_some c.center_frequency2_mhz
      then value_error "Center frequencies require an explicit channel width"
      else ok tt
]

unfoldable pub validate_config : (String → Option ℤ) → LiveSessionConfig → Result (Unit {0})
unfolding check_choices check_tuning resolve_survey_target_frequency_mhz
validate_config int_of c = do
  checked ← check_choices c
  frequency ← resolve_survey_target_frequency_mhz (int_of c.channel) c.frequency_mhz c.band
  check_tuning c frequency

-- `==` on the optional fields.
abbrev pub same_option {ℓ} : {A : Type ℓ} → (A → A → Bool) → Option A → Option A → Bool
same_option eq none none = true
same_option eq (some a) (some b) = eq a b
same_option eq _ _ = false

abbrev pub same_bool : Bool → Bool → Bool
same_bool true b = b
same_bool false b = not b

abbrev pub same_band : Band → Band → Bool
same_band ghz2_4 ghz2_4 = true
same_band Band.ghz5 Band.ghz5 = true
same_band Band.ghz6 Band.ghz6 = true
same_band other other = true
same_band _ _ = false

abbrev pub same_limits : ExportLimits → ExportLimits → Bool
same_limits a b =
    eq_ℤ a.segment_bytes b.segment_bytes
    && same_option eq_ℤ a.rotation_seconds b.rotation_seconds
    && eq_ℤ a.retained_bytes b.retained_bytes
    && eq_ℤ a.retained_files b.retained_files
    && eq_ℤ a.limit_free_bytes b.limit_free_bytes
    && eq_ℤ a.queue_bytes b.queue_bytes
    && eq_ℤ a.queue_records b.queue_records

-- Both configurations are validated, so that their bands are supported and their times finite:
-- `all(getattr(config, key) == getattr(publication.config, key) for key in SOURCE_FIELDS)`
unfoldable pub same_source : LiveSessionConfig → LiveSessionConfig → Bool
same_source a b =
    str_eq a.iface b.iface
    && same_option str_eq a.netns b.netns
    && same_backend a.capture_backend b.capture_backend
    && str_eq a.channel b.channel
    && same_option same_band a.band b.band
    && same_option eq_ℤ a.frequency_mhz b.frequency_mhz
    && same_option same_width a.channel_width b.channel_width
    && same_option eq_ℤ a.center_frequency1_mhz b.center_frequency1_mhz
    && same_option eq_ℤ a.center_frequency2_mhz b.center_frequency2_mhz
    && eq_ℤ a.interval_seconds b.interval_seconds
    && same_bool a.local_cu b.local_cu
    && same_bool a.survey_debug b.survey_debug
    && same_option str_eq a.raw_capture_path b.raw_capture_path
    && same_option str_eq a.core_diagnostics_path b.core_diagnostics_path
    && same_option str_eq a.export_directory b.export_directory
    && same_limits a.export_limits b.export_limits
