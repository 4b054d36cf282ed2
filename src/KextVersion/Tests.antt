-- ===== src/KextVersion/Tests.antt =====
-- Runs of the parser and the printer of kext.subproj/OSKextVersion.c, and the theorems at them.
use iokit_user.Prelude.{
  refl, ◌++◌, inl, length, inr, ◌↔◌, ℕ, replicate, codes, pos, some, arith, ◌<◌, none, negsuc, List,
  ◌≡◌,
}
use iokit_user.KextVersion.{Vers, parse_version_string, packed}
use iokit_user.KextVersion.Valid.{IsVersion}
use iokit_user.KextVersion.Print.{version_get_string}
use iokit_user.KextVersion.Valid.{Answer, parse_version_string-Answer}
use iokit_user.KextVersion.Order.{VersionLt, packed-lt_iff}
use iokit_user.KextVersion.RoundTrip.{parse-version_get_string, version_get_string-parse}

abbrev beta : Vers
beta = record { major = 10; minor = 5; revision = 8; stage = 5; stage_level = 12 }

abbrev later : Vers
later = record { major = 10; minor = 5; revision = 8; stage = 9; stage_level = 0 }

beta-IsVersion : IsVersion beta
beta-IsVersion = record {
  major = omega arith;
  minor = omega arith;
  revision = omega arith;
  stage = inr (inr (inl refl));
  level = omega arith;
  release_level = λ e. absurd (omega arith);
  candidate_level = λ e. absurd (omega arith);
}

later-IsVersion : IsVersion later
later-IsVersion = record {
  major = omega arith;
  minor = omega arith;
  revision = omega arith;
  stage = inr (inr (inr (inr refl)));
  level = omega arith;
  release_level = λ e. refl;
  candidate_level = λ e. absurd (omega arith);
}

parse_beta : parse_version_string (some (codes "10.5.8b12")) ≡ pos 1005085012
unfolding parse_version_string
parse_beta = refl

parse_candidate : parse_version_string (some (codes "1.0fc3")) ≡ pos 100007003
unfolding parse_version_string
parse_candidate = refl

parse_failures :
    (parse_version_string none ≡ negsuc 0)
    × (parse_version_string (some (codes "")) ≡ negsuc 0)
    × (parse_version_string (some (codes "1.0f0")) ≡ negsuc 0)
    × (parse_version_string (some (codes "1.0d256")) ≡ negsuc 0)
    × (parse_version_string (some (codes "12345")) ≡ negsuc 0)
unfolding parse_version_string
parse_failures = (refl, refl, refl, refl, refl)

abbrev buffer : List ℕ
buffer = replicate 20 7

print_beta :
    version_get_string 20 (pos 1005085012) (some buffer)
    ≡ some (codes "10.5.8b12" ++ replicate 11 0)
unfolding version_get_string
print_beta = refl

print_invalid :
    version_get_string 20 (negsuc 0) (some buffer) ≡ some (codes "(invalid)" ++ replicate 11 0)
unfolding version_get_string
print_invalid = refl

print_short : version_get_string 20 (pos 1) (some (replicate 19 7)) ≡ none
unfolding version_get_string
print_short = refl

parse-version_get_string_example :
    (out : List ℕ) × (version_get_string 20 (pos (packed beta)) (some buffer) ≡ some out)
    × (length out ≡ length buffer)
    × (parse_version_string (some out) ≡ pos (packed beta))
parse-version_get_string_example =
    parse-version_get_string 20 buffer beta beta-IsVersion (omega arith) (omega arith)

version_get_string-parse_example :
    (out : List ℕ) × (version_get_string 20 (pos 1005085012) (some buffer) ≡ some out)
    × (parse_version_string (some out) ≡ pos 1005085012)
version_get_string-parse_example =
    version_get_string-parse 20 buffer (codes "10.5.8b12") 1005085012 (omega arith) (omega arith)
      parse_beta

packed-lt_iff_example : (packed beta < packed later) ↔ VersionLt beta later
packed-lt_iff_example = packed-lt_iff beta later beta-IsVersion later-IsVersion

-- A period behind a revision of two digits is skipped.
period_behind_revision :
    (parse_version_string (some (codes "1.2.34.")) ≡ pos 102349000)
    × (parse_version_string (some (codes "1.2.34.d5")) ≡ pos 102341005)
    × (parse_version_string (some (codes "1.2.3.")) ≡ negsuc 0)
unfolding parse_version_string
period_behind_revision = (refl, refl, refl)

parse_version_string-Answer_example : Answer (parse_version_string (some (codes "10.5.8b12")))
parse_version_string-Answer_example = parse_version_string-Answer (codes "10.5.8b12")

development_text :
    version_get_string 20 (pos 1005081012) (some (replicate 20 7))
    ≡ some (codes "10.5.8d12" ++ replicate 11 0)
unfolding version_get_string
development_text = refl
