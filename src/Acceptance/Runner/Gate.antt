-- ===== src/Acceptance/Runner/Gate.antt =====
-- The checks of scripts/acceptance.py before any workload starts.
use uart2llm.Prelude.{
  ℕ, ◌≤◌, ◌≡◌, ◌≢◌, refl, ap, ◌∙◌, arith, String, true, false, Option, none, some, List, [], ◌∷◌,
  ◌⊎◌, any, leb, eq_iff, inl, inr, Bool-cases, and-eq-true, not-eq-true, not-eq-false,
  if◌then◌else◌,
}
use uart2llm.Prelude.Int.{ℤ, pos, negsuc}
use uart2llm.Python.Error.{
  Result, ok, raise, ◌>>=◌, >>=-eq-ok, raise-eq-ok, raise_if, raise_if-eq-ok, runtime_error,
}
use uart2llm.Python.Float.{Arithmetic, is_finite}
use uart2llm.Python.Json
use uart2llm.Python.Json.{
  Json, null, bool, int, float, str, obj, arr, nil, empty, is_dict, iterate, lookup, equals_str,
  equals_ℕ, is_true,
}
use uart2llm.Python.Json.Texts.{equals_str-eq}
use uart2llm.Acceptance.Pattern.{Sha, Streams, pattern_hash}
use uart2llm.Acceptance.Pattern.Bytes.{fixture_bytes}
use uart2llm.Acceptance.Pattern.Laws.{pattern_hash-eq}
use uart2llm.Acceptance.Endpoint.{World, model}
use uart2llm.Acceptance.Runner.{
  Options, entry, file_bytes_valid, options_valid, file_size, marker_valid, owned_model,
  check_fixture, prepare,
}

-- The options are in their ranges: the duration in seconds above 0 and at most 7 days, the fixture file
-- of 1 byte at least and of 1 GiB at most, finite times, and a second at least between the samples.
pub record InRange (fl : Arithmetic) (o : Options) : Type 0 where
  pub some_time : fl.less 0 o.seconds ≡ true
  pub week : fl.less 0x4122750000000000 o.seconds ≡ false
  pub bytes : ℕ
  pub sized : o.file_bytes ≡ pos bytes
  pub not_empty : 1 ≤ bytes
  pub gigabyte : bytes ≤ 1073741824
  pub finite_timeout : is_finite o.timeout ≡ true
  pub some_timeout : fl.less 0 o.timeout ≡ true
  pub finite_interval : is_finite o.telemetry_seconds ≡ true
  pub interval : fl.less o.telemetry_seconds 0x3ff0000000000000 ≡ false

file_bytes_valid-Sized :
    (z : ℤ) → file_bytes_valid z ≡ true → (n : ℕ) × (z ≡ pos n) × (1 ≤ n) × (n ≤ 1073741824)
file_bytes_valid-Sized (pos n) h =
    let (low, high) = and-eq-true (leb 1 n) (leb n 1073741824) h in
    (n, refl, ground (arith, low), ground (arith, high))
file_bytes_valid-Sized (negsuc n) h = cc

options_valid-InRange : (fl : Arithmetic) (o : Options) → options_valid fl o ≡ true → InRange fl o
unfolding options_valid
options_valid-InRange fl o h =
    let (first, telemetry) = and-eq-true _ _ h in
    let (second, timeout) = and-eq-true _ _ first in
    let (seconds, file) = and-eq-true _ _ second in
    let (n, same, low, high) = file_bytes_valid-Sized o.file_bytes file in
    record {
      some_time = (and-eq-true _ _ seconds).0;
      week = not-eq-true _ (and-eq-true _ _ seconds).1;
      bytes = n;
      sized = same;
      not_empty = low;
      gigabyte = high;
      finite_timeout = (and-eq-true _ _ timeout).0;
      some_timeout = (and-eq-true _ _ timeout).1;
      finite_interval = (and-eq-true _ _ telemetry).0;
      interval = not-eq-true _ (and-eq-true _ _ telemetry).1;
    }

-- `value` is a dict with an entry for the key that is so.
abbrev Entry : String → (Json → Type 0) → Json → Type 0
Entry k P value = (found : Json) × (Json.get k null value ≡ ok found) × P found

-- A model of the list is the acceptance fixture's own.
abbrev OwnedModel : Json → Type 0
OwnedModel value =
    (Json.get "id" null value ≡ ok (str model))
    × (Json.get "owned_by" null value ≡ ok (str "uart2llm-controlled-fixture"))

abbrev Has : List Json → Type 0
Has [] = ⊥
Has (v ∷ vs) = OwnedModel v ⊎ Has vs

-- The upstream declares itself to be the controlled fixture, and lists the fixture's own model.
pub record IsFixture (sentinel : Json) : Type 0 where
  pub marker : Json
  pub found : Json.get "uart2llm_fixture" empty sentinel ≡ ok marker
  pub version : Entry "version" (λ v. equals_ℕ 1 v ≡ true) marker
  pub no_external_calls : Json.get "no_external_calls" null marker ≡ ok (bool true)
  pub pattern : Json.get "pattern" null marker ≡ ok (str "offset-mod-251")
  pub models : List Json
  pub listed : (Json.get "data" (arr nil) sentinel >>= iterate) ≡ ok models
  pub owned : Has models

get-entry :
    (k : String) (value : Json) → is_dict value ≡ true → Json.get k null value ≡ ok (entry k value)
unfolding Json.get
get-entry k (obj fs) h = refl
get-entry k null h = cc
get-entry k (bool _) h = cc
get-entry k (int _) h = cc
get-entry k (float _) h = cc
get-entry k (str _) h = cc
get-entry k (arr _) h = cc

is_true-eq : (v : Json) → is_true v ≡ true → v ≡ bool true
unfolding is_true
is_true-eq (bool b) h = ap bool h
is_true-eq null h = cc
is_true-eq (int _) h = cc
is_true-eq (float _) h = cc
is_true-eq (str _) h = cc
is_true-eq (arr _) h = cc
is_true-eq (obj _) h = cc

owned_model-Owned : (value : Json) → owned_model value ≡ true → OwnedModel value
unfolding owned_model
owned_model-Owned value h =
    let (first, owner) = and-eq-true _ _ h in
    let (dict, id) = and-eq-true _ _ first in
    (
      get-entry "id" value dict ∙ ap ok (equals_str-eq model _ id),
      get-entry "owned_by" value dict ∙ ap ok (equals_str-eq "uart2llm-controlled-fixture" _ owner),
    )

any-Has : (models : List Json) → any owned_model models ≡ true → Has models
any-Has [] h = cc
any-Has (v ∷ vs) h = elim (Bool-cases (owned_model v)) [
  | inl e ↦ inl (owned_model-Owned v e)
  | inr e ↦ inr (any-Has vs (rw e at h))
]

-- What the marker says.
record Marks (marker : Json) : Type 0 where
  version : Entry "version" (λ v. equals_ℕ 1 v ≡ true) marker
  no_external_calls : Json.get "no_external_calls" null marker ≡ ok (bool true)
  pattern : Json.get "pattern" null marker ≡ ok (str "offset-mod-251")

marker_valid-Marks : (marker : Json) → marker_valid marker ≡ true → Marks marker
unfolding marker_valid
marker_valid-Marks marker h =
    let (three, pattern) = and-eq-true _ _ h in
    let (two, calls) = and-eq-true _ _ three in
    let (dict, version) = and-eq-true _ _ two in
    record {
      version = (_, get-entry "version" marker dict, version);
      no_external_calls = get-entry "no_external_calls" marker dict ∙ ap ok (is_true-eq _ calls);
      pattern = get-entry "pattern" marker dict ∙ ap ok (equals_str-eq "offset-mod-251" _ pattern);
    }

not_marker_valid-empty : marker_valid empty ≢ true
unfolding marker_valid
not_marker_valid-empty p = cc

no_dict :
    (sentinel : Json) (u : Unit {0}) → is_dict sentinel ≡ false → check_fixture sentinel ≢ ok u
unfolding check_fixture marker_valid ◌>>=◌
no_dict sentinel u other h = cc (refused, h)
  where
    refused :
        check_fixture sentinel
        ≡ raise (runtime_error "REFUSED: upstream is not the controlled uart2llm fixture")
    refused = rw (check_fixture, other) refl

check_fixture-IsFixture :
    (sentinel : Json) (u : Unit {0}) → check_fixture sentinel ≡ ok u → IsFixture sentinel
unfolding check_fixture
check_fixture-IsFixture sentinel u h = elim (Bool-cases (is_dict sentinel)) [
  | inr other ↦ absurd (no_dict sentinel u other h)
  | inl dict ↦
      let (marker, found, later) = >>=-eq-ok (if is_dict sentinel then _ else _) _ h in
      let (unmarked, more) = raise-eq-ok _ _ _ later in
      let (listed, there, over) = >>=-eq-ok _ _ more in
      let (models, iterated, last) = >>=-eq-ok _ _ over in
      let marks = marker_valid-Marks marker (not-eq-false _ unmarked) in
      record {
        marker = marker;
        found = of_dict dict marker found;
        version = marks.version;
        no_external_calls = marks.no_external_calls;
        pattern = marks.pattern;
        models = models;
        listed = found_models listed models there iterated;
        owned = any-Has models (not-eq-false _ (raise-eq-ok _ _ _ last).0);
      }
]
  where
    of_dict :
        is_dict sentinel ≡ true
        → (marker : Json)
        → (if is_dict sentinel then Json.get "uart2llm_fixture" empty sentinel else ok empty)
          ≡ ok marker
        → Json.get "uart2llm_fixture" empty sentinel ≡ ok marker
    of_dict dict marker = rw dict (λ p. p)

    found_models :
        (listed : Json) (models : List Json)
        → Json.get "data" (arr nil) sentinel ≡ ok listed
        → iterate listed ≡ ok models
        → (Json.get "data" (arr nil) sentinel >>= iterate) ≡ ok models
    found_models listed models p q = ap (λ r. r >>= iterate) p ∙ (unfold ◌>>=◌ in q)

-- If the runner gets past its checks, then the duration is above 0 and at most 7 days, the file has
-- from 1 byte to 1 GiB, the timeout is finite and above 0, the telemetry interval is finite and a second
-- at least, there is a token, the upstream has answered with the marker of the controlled fixture,
-- which makes no external calls, and lists the fixture's own model, and the digest that the workers
-- will expect is the one of the fixture file; the digest's `update` takes its input piece by piece.
pub prepare_safe :
    (w : World) (h : Sha) (fl : Arithmetic)
    → Streams h
    → (o : Options) (sentinel : Result Json) (digest : String)
    → prepare w h fl o sentinel ≡ ok digest
    → InRange fl o
      × (o.token ≢ "")
      × ((v : Json) × (sentinel ≡ ok v) × IsFixture v)
      × (digest ≡ h.hexdigest (h.update h.start (fixture_bytes 0 (file_size o.file_bytes))))
unfolding prepare
prepare_safe w h fl streams o sentinel digest p =
    let (u, valid, rest) = >>=-eq-ok (raise_if _ _) _ p in
    let (u', token, asked) = >>=-eq-ok (raise_if _ _) _ rest in
    let (v, answered, checked) = >>=-eq-ok sentinel _ asked in
    let (u'', fixture, hashed) = >>=-eq-ok _ _ checked in
    (
      options_valid-InRange fl o (not-eq-false _ (raise_if-eq-ok _ _ valid)),
      (λ e. cc (raise_if-eq-ok _ _ token, (eq_iff o.token "").1 e)),
      (v, answered, check_fixture-IsFixture v u'' fixture),
      of_hash (pattern_hash h (file_size o.file_bytes)) (pattern_hash-eq h streams _) hashed,
    )
  where
    expected : String
    expected = h.hexdigest (h.update h.start (fixture_bytes 0 (file_size o.file_bytes)))

    of_hash :
        (r : Option String)
        → r ≡ some expected
        → elim r [ none ↦ raise (runtime_error "the loop did not end") | some d ↦ ok d ] ≡ ok digest
        → digest ≡ expected
    of_hash none e q = cc
    of_hash (some d) e q = cc
