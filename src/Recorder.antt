-- ===== src/Recorder.antt =====
-- pkg/recorder and pkg/recorder/diag: the diagnostics that the stages of the program record.
-- The times of a diagnostic are left out, and a text made by Sprintf is the data it is made of.
use kform.Shared.{
  Bool, List, Str, [], arith, false, if◌then◌else◌, refl, true, ◌++◌, ◌||◌, ◌∷◌, ◌≡◌,
}

pub data Severity : Type 0 where
  severity_none : Severity
  severity_warning : Severity
  severity_error : Severity

-- What the `Detail` of a diagnostic says.
pub data Detail : Type 0 where
  annotation_ignored : Str → Detail
  mandatory_annotation : Str → Detail
  resource_type_syntax : Str → Detail
  without_package : Detail
  more_than_one_backend : Detail
  duplicate_resource : Str → Str → Detail
  block_without_node : Detail
  unresolved_each : Str → Detail
  unresolved_count : Str → Detail
  unresolved_block : Str → Detail
  unresolved_provider : Str → Detail
  mixin_provider_configs : List Str → Detail
  depends_on_not_found : Str → Detail
  render_failed : Str → Detail
  success_detail : Detail
  unknown_block_type : Str → Detail
  no_initializer : Detail
  no_backend : Detail
  no_provider_config : Str → Detail
  mixin_not_found : Str → Detail
  output_not_found : Str → Detail
  unreferenced_configs : List Str → Detail

pub record Diagnostic : Type 0 where
  pub severity : Severity
  pub detail : Detail
  pub diag_context : Str

abbrev pub Records : Type 0
Records = List Diagnostic

abbrev pub diag_from_err_with_context : Str → Detail → Diagnostic
diag_from_err_with_context c e = record { severity = severity_error; detail = e; diag_context = c }

abbrev pub diag_from_err : Detail → Diagnostic
diag_from_err e = record { severity = severity_error; detail = e; diag_context = [] }

abbrev pub diag_errorf_with_context : Str → Detail → Diagnostic
diag_errorf_with_context c e = record { severity = severity_error; detail = e; diag_context = c }

abbrev pub diag_errorf : Detail → Diagnostic
diag_errorf e = record { severity = severity_error; detail = e; diag_context = [] }

abbrev pub diag_warnf_with_context : Str → Detail → Diagnostic
diag_warnf_with_context c e = record { severity = severity_warning; detail = e; diag_context = c }

-- `Record`
abbrev pub record_diag : Diagnostic → Records → Records
record_diag d rs = rs ++ d ∷ []

abbrev pub is_error : Diagnostic → Bool
is_error d = elim d.severity [ severity_error ↦ true | _ ↦ false ]

unfoldable pub has_error : Records → Bool
has_error [] = false
has_error (d ∷ ds) = if is_error d then true else has_error ds

-- `Error`: the context and the detail of each error, joined.
unfoldable pub error_of : Records → List (Str × Detail)
error_of [] = []
error_of (d ∷ ds) =
    let rest = error_of ds in if is_error d then (d.diag_context, d.detail) ∷ rest else rest

pub has_error-append : (rs ss : Records) → has_error (rs ++ ss) ≡ (has_error rs || has_error ss)
unfolding has_error
has_error-append [] ss = refl
has_error-append (d ∷ rs) ss = ground (arith, has_error-append rs ss)

-- There is an error text exactly if a diagnostic is an error, and the text says all of them.
pub error_of-append : (rs ss : Records) → error_of (rs ++ ss) ≡ error_of rs ++ error_of ss
unfolding error_of
error_of-append [] ss = refl
error_of-append (d ∷ rs) ss = ground (arith, error_of-append rs ss)
