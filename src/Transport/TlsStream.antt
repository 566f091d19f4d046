-- ===== src/Transport/TlsStream.antt =====
-- The reads of turn_server/src/transport/tls_transport.cpp against the framing of
-- turn_server/src/transport/tcp_transport.cpp.
use mathlib.Core.List.{append-nil, append_assoc}
use zaza.Common.{
  ℕ, zero, suc, ◌+◌, ◌≡◌, refl, sym, ap, ◌∙◌, arith, true, false, Bytes, List, [], ◌∷◌, ◌++◌, ltb,
  ◌==◌, if◌then◌else◌, length, take, drop, length-append,
}
use zaza.Common.Checked.{Checked, ret, bad_access, no_fuel, ◌>>=◌}
use zaza.Transport.TlsSession.{Stage, wanted, complete, Reading, reading, settle, on_byte, run}

-- The rest of a run behind one read.
abbrev pub onward : Bytes → Reading × List Bytes → Checked (Reading × List Bytes)
onward rest now =
    run now.0 rest >>= λ (later : Reading × List Bytes). ret (later.0, now.1 ++ later.1)

unchanged :
    (r : Checked (Reading × List Bytes))
    → (r >>= λ (later : Reading × List Bytes). ret (later.0, later.1)) ≡ r
unchanged (ret (s, out)) = refl
unchanged bad_access = refl
unchanged no_fuel = refl

pub onward-silent : (s : Reading) (rest : Bytes) → onward rest (s, []) ≡ run s rest
onward-silent s rest = unchanged (run s rest)

-- A read that is under way: it waits for more bytes, or completes and the run goes on.
unfoldable pub progress : Stage → Bytes → ℕ → Bytes → Checked (Reading × List Bytes)
unfolding complete settle run
progress stage got missing stream =
    if ltb (length stream) missing
    then ret (reading stage (got ++ stream), [])
    else ((complete stage (got ++ take missing stream) >>= settle) >>= onward (drop missing stream))

progress-shift :
    (stage : Stage) (got : Bytes) (b missing : ℕ) (stream : Bytes)
    → progress stage (got ++ (b ∷ [])) missing stream
      ≡ progress stage got (suc missing) (b ∷ stream)
unfolding progress
progress-shift stage got b missing stream =
    let same_test : ltb (suc (length stream)) (suc missing) ≡ ltb (length stream) missing =
      ground arith in
    rw
      (same_test, append_assoc got (b ∷ []) stream, append_assoc got (b ∷ []) (take missing stream))
      refl

pub run-progress :
    (stage : Stage) (missing : ℕ) (got stream : Bytes)
    → length got + suc missing ≡ wanted stage
    → run (reading stage got) stream ≡ progress stage got (suc missing) stream
unfolding run on_byte progress
run-progress stage missing got [] h =
    let at : Bytes → Checked (Reading × List Bytes) = λ g. ret (reading stage g, []) in
    let short : ltb 0 (suc missing) ≡ true = ground arith in rw short (ap at (sym (append-nil got)))
run-progress stage zero got (b ∷ stream) h =
    let whole : (length (got ++ (b ∷ [])) == wanted stage) ≡ true =
      ground (arith, length-append got (b ∷ [])) in
    let enough : ltb (suc (length stream)) 1 ≡ false = ground arith in rw (whole, enough) refl
run-progress stage (suc missing) got (b ∷ stream) h =
    let partial : (length (got ++ (b ∷ [])) == wanted stage) ≡ false =
      ground (arith, length-append got (b ∷ [])) in
    rw partial (
      onward-silent (reading stage (got ++ (b ∷ []))) stream
      ∙ run-progress stage missing (got ++ (b ∷ [])) stream
          (omega (arith, h, length-append got (b ∷ [])))
      ∙ progress-shift stage got b (suc missing) stream)
