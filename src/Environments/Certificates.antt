-- ===== src/Environments/Certificates.antt =====
-- internal/config/config.go: the files that are read for certificates.
use machmqtt_dashboard.Prelude.{
  ℕ, ◌+◌, ◌≤◌, ◌≡◌, refl, ap, ◌⊎◌, inl, inr, not, ltb, Bool, true, false, ◌||◌, Option, none, some,
  Bytes, length, take, length-take, take_of_length-le, arith, Bool-cases, Option-cases,
}
use machmqtt_dashboard.Environments.{
  TlsConfig, File, is_empty, max_cert_file_bytes, read_limited, with_pem, resolve_ca_file,
}

-- The bytes are the whole of a regular file within the limit.
abbrev pub IsWhole : ℕ → Bytes → Option File → Type 0
IsWhole limit contents none = ⊥
IsWhole limit contents (some f) =
    (f.is_regular ≡ true) × (contents ≡ f.contents) × (length contents ≤ limit)

take-whole : (n : ℕ) (xs : Bytes) → ltb n (length (take (n + 1) xs)) ≡ false → take (n + 1) xs ≡ xs
take-whole n xs h = take_of_length-le (n + 1) xs (ground (arith, length-take {0} (n + 1) xs))

read_limited-IsWhole :
    (limit : ℕ) (o : Option File) (contents : Bytes)
    → read_limited limit o ≡ some contents
    → IsWhole limit contents o
unfolding read_limited
read_limited-IsWhole limit none contents h = ground arith
read_limited-IsWhole limit (some f) contents h = ground (
  arith,
  take-whole limit f.contents,
  Bool-cases f.is_regular,
  Bool-cases (ltb limit (length (take (limit + 1) f.contents))),
)

no_pem : (file pem : Bool) → (file || not pem) ≡ false → pem ≡ true
no_pem true pem h = ground arith
no_pem false true h = refl
no_pem false false h = ground arith

abbrev pub IsResolved : ℕ → TlsConfig → TlsConfig → Option File → Type 0
IsResolved limit t resolved o =
    (resolved.insecure ≡ t.insecure)
    × ((resolved ≡ t) ⊎ ((is_empty t.ca_pem ≡ true) × IsWhole limit resolved.ca_pem o))

IsResolved-kept :
    (limit : ℕ) (t resolved : TlsConfig) (o : Option File)
    → some (some t) ≡ some (some resolved)
    → IsResolved limit t resolved o
IsResolved-kept limit t resolved o h =
    let same : resolved ≡ t = ground arith in (ap (λ r. r.insecure) same, inl same)

IsResolved-loaded :
    (limit : ℕ) (t resolved : TlsConfig) (o : Option File)
    → is_empty t.ca_pem ≡ true
    → with_pem t (read_limited limit o) ≡ some (some resolved)
    → IsResolved limit t resolved o
IsResolved-loaded limit t resolved o p h = elim (Option-cases (read_limited limit o)) [
  | inl e ↦ ground (arith, e)
  | inr (pem, e) ↦
      let same : resolved ≡ record t { ca_pem = pem } = ground (arith, e) in
      (ap (λ r. r.insecure) same, inr (p, rw same (read_limited-IsWhole limit o pem e)))
]

-- The pinned certificates that connections are made with are those of the settings, or the whole of the
-- regular file that the settings name, of at most a mebibyte: a TLS block that resolves is either unchanged,
-- or had no PEM text and has got the contents of that file; its other settings are kept.
pub resolve_ca_file-IsResolved :
    (disk : Bytes → Option File) (t resolved : TlsConfig)
    → resolve_ca_file disk (some t) ≡ some (some resolved)
    → IsResolved max_cert_file_bytes t resolved (disk t.ca_file)
unfolding resolve_ca_file
resolve_ca_file-IsResolved disk t resolved h =
    elim (Bool-cases (is_empty t.ca_file || not (is_empty t.ca_pem))) [
      | inl e ↦ IsResolved-kept max_cert_file_bytes t resolved (disk t.ca_file) (rw e at h)
      | inr e ↦
          IsResolved-loaded max_cert_file_bytes t resolved (disk t.ca_file)
            (no_pem (is_empty t.ca_file) (is_empty t.ca_pem) e) (rw e at h)
    ]
