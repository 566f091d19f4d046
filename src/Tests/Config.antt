-- ===== src/Tests/Config.antt =====
-- Runs of the reader of settings.
use zaza.Common.{◌≡◌, refl, true, false, bytes, List, [], ◌∷◌, some, All, arith}
use zaza.Common.Integers.{pos}
use zaza.Config.Reader.{load, get, get_int, get_bool}
use zaza.Config.Settings.{Line, IsSetting, render, load-render}

abbrev entries : List Line
entries =
    record { front = []; key = bytes "HOST"; back = []; value = bytes "a = b" }
    ∷ record { front = bytes " "; key = bytes "PORT"; back = bytes "  "; value = bytes "8080" }
    ∷ record { front = []; key = bytes "HOST"; back = bytes " "; value = bytes " c\"" }
    ∷ []

entries-IsSetting : All IsSetting entries
entries-IsSetting = (ground arith, (ground arith, (ground arith, tt)))

load-render_example :
    load [] (some (render entries))
    ≡ some ((bytes "HOST", bytes " c\"") ∷ (bytes "PORT", bytes "8080") ∷ [])
load-render_example = load-render [] entries entries-IsSetting

-- Comments and lines without `=` are skipped, blanks and quotes are taken off.
load_test :
    load [] (some (bytes "# A=1\nB\n PORT = 80x\nTLS=yes\nNAME=\" a \""))
    ≡ some (
        (bytes "PORT", bytes "80x") ∷ (bytes "TLS", bytes "yes") ∷ (bytes "NAME", bytes " a ") ∷ [])
unfolding load
load_test = refl

get_test :
    (get_int ((bytes "PORT", bytes "80x") ∷ []) (bytes "PORT") (pos 1) ≡ pos 80)
    × (get_int ((bytes "PORT", bytes "2147483648") ∷ []) (bytes "PORT") (pos 1) ≡ pos 1)
    × (get_bool ((bytes "TLS", bytes "yes") ∷ []) (bytes "TLS") false ≡ true)
unfolding get_int get_bool get
get_test = (refl, refl, refl)
