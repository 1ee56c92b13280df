-- ===== src/Ingest/Junit/Complete.antt =====
-- ingest/junit.py: the cases that come out of the events of a document.
use netflix_flaky_test_triag.Base.{
  ℕ, ◌-◌, ◌≡◌, refl, sym, ap, ◌∙◌, Bool, true, ◌||◌, Option, none, some, List, [], ◌∷◌, ◌++◌, map,
  map-append, append_assoc, append-nil, Text, codes, text_eq, strip, or_else, All, ◌==◌, Bool-cases,
  inl, inr, if◌then◌else◌,
}
use netflix_flaky_test_triag.Runtime.{Runtime}
use netflix_flaky_test_triag.Models.Records.{TestCaseResult}
use netflix_flaky_test_triag.Ingest.Elements.{Element, get, lower_tag, duration_ms}
use netflix_flaky_test_triag.Ingest.Cases.{SuiteFrame, build_case}
use netflix_flaky_test_triag.Ingest.Junit.{
  JunitParseResult, Event, Stream, caught, Scan, no_cases, with_suite_output, extend, emit,
  drain_from, drain, attach_suite_output, opened, close_suite, capture, closed, on_event, scan,
  parsed, parse_stream,
}

-- The names of the cases of a list.
abbrev pub names : List TestCaseResult → List Text
names = map (λ c. c.name)

-- The cases of the open suites, the outermost first.
abbrev of_suites : List SuiteFrame → List TestCaseResult
of_suites [] = []
of_suites (f ∷ fs) = of_suites fs ++ f.cases

-- The cases so far, in the order of the document.
abbrev so_far : Scan → List TestCaseResult
so_far s = s.cases ++ of_suites s.suites

names-with_suite_output :
    (f : SuiteFrame) (cases : List TestCaseResult)
    → names (map (with_suite_output f) cases) ≡ names cases
unfolding with_suite_output
names-with_suite_output f [] = refl
names-with_suite_output f (c ∷ cases) = ap (λ rest. c.name ∷ rest) (names-with_suite_output f cases)

so_far-extend :
    (found : List TestCaseResult) (fs : List SuiteFrame) (s : Scan)
    → so_far (extend found fs s) ≡ (s.cases ++ of_suites fs) ++ found
unfolding extend
so_far-extend found [] s =
    append-nil (s.cases ++ found) ∙ ap (λ cases. cases ++ found) (sym (append-nil s.cases))
so_far-extend found (f ∷ fs) s =
    ap (λ rest. s.cases ++ rest) (sym (append_assoc (of_suites fs) f.cases found))
    ∙ sym (append_assoc s.cases (of_suites fs ++ f.cases) found)

names-extend :
    (found : List TestCaseResult) (fs : List SuiteFrame) (s : Scan)
    → names (so_far (extend found fs s)) ≡ names (s.cases ++ of_suites fs) ++ names found
names-extend found fs s =
    ap names (so_far-extend found fs s) ∙ map-append (λ c. c.name) (s.cases ++ of_suites fs) found

names-close_suite :
    (fs : List SuiteFrame) (s : Scan)
    → s.suites ≡ fs
    → names (so_far (close_suite fs s)) ≡ names (s.cases ++ of_suites fs)
unfolding close_suite emit
names-close_suite [] s e = ap (λ fs. names (s.cases ++ of_suites fs)) e
names-close_suite (f ∷ fs) s e =
    names-extend (map (with_suite_output f) f.cases) fs s
    ∙ ap (λ rest. names (s.cases ++ of_suites fs) ++ rest) (names-with_suite_output f f.cases)
    ∙ sym (map-append (λ c. c.name) (s.cases ++ of_suites fs) f.cases)
    ∙ ap names (append_assoc s.cases (of_suites fs) f.cases)

names-capture :
    (tag : Text) (text : Option Text) (fs : List SuiteFrame) (s : Scan)
    → s.suites ≡ fs
    → names (so_far (capture tag text fs s)) ≡ names (s.cases ++ of_suites fs)
unfolding capture attach_suite_output
names-capture tag text [] s e = ap (λ fs. names (s.cases ++ of_suites fs)) e
names-capture tag text (f ∷ fs) s e = elim (Bool-cases (s.case_depth == 0)) [
  | inl k ↦ elim (Bool-cases (text_eq tag (codes "system-out"))) [
    | inl l ↦ rw (k, l) refl
    | inr l ↦ rw (k, l) refl
  ]
  | inr k ↦ rw k (ap (λ fs. names (s.cases ++ of_suites fs)) e)
]

names-opened :
    (tag : Text) (attributes : List (Text × Text)) (s : Scan)
    → names (so_far (opened tag attributes s)) ≡ names (so_far s)
unfolding opened
names-opened tag attributes s = elim (Bool-cases (text_eq tag (codes "testsuite"))) [
  | inl k ↦ rw (k, append-nil) refl
  | inr k ↦ elim (Bool-cases (text_eq tag (codes "testcase"))) [
    | inl l ↦ rw (k, l) refl
    | inr l ↦ rw (k, l) refl
  ]
]

drain_from-names :
    (found : List TestCaseResult) (fs : List SuiteFrame) (cases : List TestCaseResult)
    → names (drain_from found fs cases) ≡ names ((cases ++ of_suites fs) ++ found)
unfolding drain_from
drain_from-names found [] cases = rw append-nil refl
drain_from-names found (f ∷ fs) cases =
    drain_from-names (map (with_suite_output f) (f.cases ++ found)) fs cases
    ∙ map-append (λ c. c.name) (cases ++ of_suites fs)
        (map (with_suite_output f) (f.cases ++ found))
    ∙ ap (λ rest. names (cases ++ of_suites fs) ++ rest)
        (names-with_suite_output f (f.cases ++ found))
    ∙ sym (map-append (λ c. c.name) (cases ++ of_suites fs) (f.cases ++ found))
    ∙ ap names (
        sym (append_assoc (cases ++ of_suites fs) f.cases found)
        ∙ ap (λ rest. rest ++ found) (append_assoc cases (of_suites fs) f.cases))

drain-names :
    (fs : List SuiteFrame) (cases : List TestCaseResult)
    → names (drain fs cases) ≡ names (cases ++ of_suites fs)
unfolding drain
drain-names [] cases = rw append-nil refl
drain-names (f ∷ fs) cases =
    drain_from-names (map (with_suite_output f) f.cases) fs cases
    ∙ map-append (λ c. c.name) (cases ++ of_suites fs) (map (with_suite_output f) f.cases)
    ∙ ap (λ rest. names (cases ++ of_suites fs) ++ rest) (names-with_suite_output f f.cases)
    ∙ sym (map-append (λ c. c.name) (cases ++ of_suites fs) f.cases)
    ∙ ap names (append_assoc cases (of_suites fs) f.cases)

module _ {F : Type 0} (rt : Runtime F) where
  abbrev pub is_case : Element → Bool
  is_case e = text_eq (lower_tag rt e.tag) (codes "testcase")

  -- The name that a finished test case has in the document.
  abbrev pub case_name : Element → Text
  case_name e = strip (or_else (get (codes "name") e.attributes) [])

  -- The names of the test cases that the events finish, in order.
  abbrev pub finished_names : List Event → List Text
  finished_names [] = []
  finished_names (Event.start tag attributes ∷ events) = finished_names events
  finished_names (Event.finish e ∷ events) =
      let rest = finished_names events in if is_case e then case_name e ∷ rest else rest

  -- The conversion of the time of a finished test case to milliseconds does not overflow.
  abbrev pub IsTimed : Event → Type 0
  IsTimed (Event.start tag attributes) = Unit
  IsTimed (Event.finish e) =
      is_case e ≡ true
      → (d : Option ℕ) × (duration_ms rt (get (codes "time") e.attributes) ≡ some d)

  finished_names-cons :
      (event : Event) (events : List Event)
      → finished_names (event ∷ []) ++ finished_names events ≡ finished_names (event ∷ events)
  finished_names-cons (Event.start tag attributes) events = refl
  finished_names-cons (Event.finish e) events = elim (Bool-cases (is_case e)) [
    | inl k ↦ rw k refl
    | inr k ↦ rw k refl
  ]

module _ {F : Type 0} (rt : Runtime F) (origin : Text) where
  build_case-name :
      (e : Element) (suites : List SuiteFrame) (d : Option ℕ)
      → duration_ms rt (get (codes "time") e.attributes) ≡ some d
      → (c : TestCaseResult) × (build_case rt e suites origin ≡ some c) × (c.name ≡ case_name rt e)
  unfolding build_case
  build_case-name e suites d k = rw k (_, refl, refl)

  closed-names :
      (e : Element) (s : Scan)
      → IsTimed rt (Event.finish e)
      → (next : Scan) × (closed rt origin (lower_tag rt e.tag) e s ≡ some next)
        × (names (so_far next) ≡ names (so_far s) ++ finished_names rt (Event.finish e ∷ []))
  unfolding closed
  closed-names e s timed = elim (Bool-cases (is_case rt e)) [
    | inl k ↦
        let (d, t) = timed k in
        let (c, b, n) = build_case-name e s.suites d t in
        let after : Scan = record s { case_depth = s.case_depth - 1 } in
        (
          extend (c ∷ []) s.suites after,
          rw (k, b) refl,
          names-extend (c ∷ []) s.suites after
              ∙ ap (λ name. names (so_far s) ++ (name ∷ [])) n
              ∙ rw k refl,
        )
    | inr k ↦ elim (Bool-cases (text_eq (lower_tag rt e.tag) (codes "testsuite"))) [
      | inl l ↦ (
        close_suite s.suites s,
        rw (k, l) refl,
        names-close_suite s.suites s refl ∙ rw k (sym (append-nil (names (so_far s)))),
      )
      | inr l ↦
          elim (Bool-cases (
            text_eq (lower_tag rt e.tag) (codes "system-out")
            || text_eq (lower_tag rt e.tag) (codes "system-err"))) [
              | inl m ↦ (
                capture (lower_tag rt e.tag) e.text s.suites s,
                rw (k, l, m) refl,
                names-capture (lower_tag rt e.tag) e.text s.suites s refl
                    ∙ rw k (sym (append-nil (names (so_far s)))),
              )
              | inr m ↦ (s, rw (k, l, m) refl, rw k (sym (append-nil (names (so_far s)))))
            ]
    ]
  ]

  on_event-names :
      (event : Event) (s : Scan)
      → IsTimed rt event
      → (next : Scan) × (on_event rt origin event s ≡ some next)
        × (names (so_far next) ≡ names (so_far s) ++ finished_names rt (event ∷ []))
  unfolding on_event
  on_event-names (Event.start tag attributes) s timed = (
    opened (lower_tag rt tag) attributes s,
    refl,
    names-opened (lower_tag rt tag) attributes s ∙ sym (append-nil (names (so_far s))),
  )
  on_event-names (Event.finish e) s timed = closed-names e s timed

  scan-names :
      (events : List Event) (s : Scan)
      → All (IsTimed rt) events
      → (last : Scan) × (scan rt origin events s ≡ some last)
        × (names (so_far last) ≡ names (so_far s) ++ finished_names rt events)
  unfolding scan
  scan-names [] s timed = (s, refl, sym (append-nil (names (so_far s))))
  scan-names (event ∷ events) s (t, ts) =
      let (next, e, n) = on_event-names event s t in
      let (last, e', n') = scan-names events next ts in
      (
        last,
        rw (e, scan) e',
        n'
            ∙ ap (λ xs. xs ++ finished_names rt events) n
            ∙ append_assoc (names (so_far s)) (finished_names rt (event ∷ []))
                (finished_names rt events)
            ∙ ap (λ xs. names (so_far s) ++ xs) (finished_names-cons rt event events),
      )

  parsed-cases :
      (error : Option Text) (cases : List TestCaseResult)
      → (parsed rt origin error cases).cases ≡ cases
  unfolding parsed
  parsed-cases none cases = refl
  parsed-cases (some detail) cases = refl

  -- Take a document that `iterparse` reads to its end or to a `ParseError`, such as one that is
  -- truncated, in which the conversion to milliseconds overflows for the time of no finished test
  -- case. `_parse_stream` returns, and the names of its cases are the stripped names of the
  -- finished test cases, one case for each of them, in the order of the document.
  pub parse_stream_complete :
      (stream : Stream) (error : Option Text)
      → caught stream.ending ≡ some error
      → All (IsTimed rt) stream.events
      → (r : JunitParseResult) × (parse_stream rt origin stream ≡ some r)
        × (names r.cases ≡ finished_names rt stream.events)
  unfolding parse_stream
  parse_stream_complete stream error read timed =
      let (last, e, n) = scan-names stream.events no_cases timed in
      let found = drain last.suites last.cases in
      (
        parsed rt origin error found,
        rw (e, read) refl,
        ap names (parsed-cases error found) ∙ drain-names last.suites last.cases ∙ n,
      )
