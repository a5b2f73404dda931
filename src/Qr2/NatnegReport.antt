-- ===== src/Qr2/NatnegReport.antt =====
-- ProcessNATNEGReport of qr2/group.go: what a report changes.
use wfc_server.Prelude.{
  ℕ, suc, ◌<◌, ◌≡◌, ◌≢◌, ◌⊎◌, inl, inr, refl, ap, ◌∙◌, true, false, some, [], ◌∷◌, ◌++◌, ◌==◌,
  if◌then◌else◌, returns, arith,
}
use wfc_server.Prelude.Words.{Bytes}
use wfc_server.Prelude.NatMap.{lookup}
use wfc_server.Prelude.Text.{text_eq, text_eq_iff, itoa, itoa_loop, atoi_value}
use wfc_server.Prelude.TextLaws.{atoi_value-itoa}
use wfc_server.Prelude.TextMap.{write, field, named-set_named}
use wfc_server.IpAddress.{make_lookup_addr}
use wfc_server.Qr2.{State, set_session, set_data, data_of, is_at, conn, conn_of, joinindex}
use wfc_server.Qr2.Groups.{same_group, set_conn}
use wfc_server.Qr2.Reservation.{
  increment, conn_fail, count_failures, report_pair, process_natneg_report,
}

pub data_of-set_data :
    (p q : ℕ) (name asked value : Bytes) (s : State)
    → data_of (set_data p name value s) q asked ≡ (
        if p == q
        then if text_eq name asked then value else data_of s q asked
        else data_of s q asked)
unfolding data_of set_data set_session write field
data_of-set_data p q name asked value s =
    ground (arith, named-set_named name asked value (s.session_at q).fields)

-- The "+conn_" names differ from the others that a report reads or writes.
text_eq-conn-joinindex : (x : Bytes) → text_eq (conn ++ x) joinindex ≡ false
unfolding text_eq
text_eq-conn-joinindex x = ground arith

conn-conn_fail :
    (x : Bytes) → text_eq (conn ++ x) conn_fail ≡ true → x ≡ b'f' ∷ b'a' ∷ b'i' ∷ b'l' ∷ []
unfolding text_eq
conn-conn_fail x h = ground (arith, text_eq_iff x (b'f' ∷ b'a' ∷ b'i' ∷ b'l' ∷ []))

module _ (value : Bytes) (p q : ℕ) (s : State) (apart : p ≢ q) where
  data_of-set_conn :
      (r : ℕ) (asked : Bytes)
      → data_of (set_conn value p q s) r asked ≡ (
          if p == r
          then if text_eq (conn_of s q) asked then value else data_of s r asked
          else if q == r
          then if text_eq (conn_of s p) asked then value else data_of s r asked
          else data_of s r asked)
  unfolding set_conn
  data_of-set_conn r asked = ground (
    arith,
    data_of-set_data q r (conn_of (set_data p (conn_of s q) value s) p) asked value
        (set_data p (conn_of s q) value s),
    data_of-set_data p r (conn_of s q) asked value s,
    data_of-set_data p p (conn_of s q) joinindex value s,
    text_eq-conn-joinindex (data_of s q joinindex),
  )

module _ (result p q : ℕ) (s : State) (apart : p ≢ q) where
  abbrev value : Bytes
  value = if result == 1 then b'2' ∷ [] else b'3' ∷ []

  abbrev marked : State
  marked = set_conn value p q s

  data_of-report_pair :
      (r : ℕ) (asked : Bytes)
      → data_of (report_pair result p q s) r asked ≡ (
          if result == 1
          then data_of marked r asked
          else if q == r
          then if text_eq conn_fail asked
            then increment (data_of marked q conn_fail)
            else data_of marked r asked
          else if p == r
          then if text_eq conn_fail asked
            then increment (data_of marked p conn_fail)
            else data_of marked r asked
          else data_of marked r asked)
  unfolding report_pair count_failures
  data_of-report_pair r asked =
      let fail₁ = increment (data_of marked p conn_fail) in
      let fail₂ = increment (data_of marked q conn_fail) in
      ground (
        arith,
        data_of-set_data q r conn_fail asked fail₂ (set_data p conn_fail fail₁ marked),
        data_of-set_data p r conn_fail asked fail₁ marked,
      )

abbrev fail : Bytes
fail = b'f' ∷ b'a' ∷ b'i' ∷ b'l' ∷ []

report_pair-marks :
    (result p q : ℕ) (s : State)
    → p ≢ q
    → data_of s p joinindex ≢ fail
    → data_of s q joinindex ≢ fail
    → (data_of (report_pair result p q s) p (conn_of s q)
        ≡ (if result == 1 then b'2' ∷ [] else b'3' ∷ []))
      × (data_of (report_pair result p q s) p conn_fail
          ≡ (if result == 1 then data_of s p conn_fail else increment (data_of s p conn_fail)))
      × (data_of (report_pair result p q s) q (conn_of s p)
          ≡ (if result == 1 then b'2' ∷ [] else b'3' ∷ []))
      × (data_of (report_pair result p q s) q conn_fail
          ≡ (if result == 1 then data_of s q conn_fail else increment (data_of s q conn_fail)))
report_pair-marks result p q s apart n m =
    let v : Bytes = if result == 1 then b'2' ∷ [] else b'3' ∷ [] in
    (
      ground (
        arith,
        data_of-report_pair result p q s apart p (conn_of s q),
        data_of-set_conn v p q s apart p (conn_of s q),
        text_eq_iff (conn_of s q) (conn_of s q),
        text_eq_iff conn_fail (conn_of s q),
        conn-conn_fail (data_of s q joinindex),
        text_eq_iff conn_fail conn_fail,
      ),
      ground (
        arith,
        data_of-report_pair result p q s apart p conn_fail,
        data_of-set_conn v p q s apart p conn_fail,
        conn-conn_fail (data_of s q joinindex),
        text_eq_iff conn_fail conn_fail,
      ),
      ground (
        arith,
        data_of-report_pair result p q s apart q (conn_of s p),
        data_of-set_conn v p q s apart q (conn_of s p),
        text_eq_iff (conn_of s p) (conn_of s p),
        text_eq_iff conn_fail (conn_of s p),
        conn-conn_fail (data_of s p joinindex),
        text_eq_iff conn_fail conn_fail,
      ),
      ground (
        arith,
        data_of-report_pair result p q s apart q conn_fail,
        data_of-set_conn v p q s apart q conn_fail,
        conn-conn_fail (data_of s p joinindex),
        text_eq_iff conn_fail conn_fail,
      ),
    )

-- A text that counts `n` failures: the decimal digits of `n`, or nothing for no failure.
abbrev pub IsCount : Bytes → ℕ → Type 0
IsCount text n = ((text ≡ []) × (n ≡ 0)) ⊎ ((text ≡ itoa n) × (n < 0x7fffffffffffffff))

increment-IsCount : (text : Bytes) (n : ℕ) → IsCount text n → increment text ≡ itoa (suc n)
unfolding increment atoi_value itoa itoa_loop
increment-IsCount text n (inl (empty, none_yet)) = rw (empty, none_yet) refl
increment-IsCount text n (inr (digits, small)) =
    rw digits (ground (arith, atoi_value-itoa n (omega arith)))

-- A report on two addresses whose sessions p and q are not the same, are in one group, have join
-- indexes other than "fail", and count m and n failures in "+conn_fail": each session's "+conn_"
-- field for the other becomes "2" on a success, which is result 1, and "3" else; and "+conn_fail"
-- stays on a success, and else becomes the text of m + 1 and of n + 1.
pub process_natneg_report-marks :
    (result key₁ key₂ p q g m n : ℕ) (ip₁ ip₂ : Bytes) (s : State)
    → make_lookup_addr ip₁ ≡ returns key₁
    → make_lookup_addr ip₂ ≡ returns key₂
    → lookup key₁ s.sessions ≡ some p
    → lookup key₂ s.sessions ≡ some q
    → (s.session_at p).group_pointer ≡ some g
    → (s.session_at q).group_pointer ≡ some g
    → p ≢ q
    → data_of s p joinindex ≢ fail
    → data_of s q joinindex ≢ fail
    → IsCount (data_of s p conn_fail) m
    → IsCount (data_of s q conn_fail) n
    → (s' : State) × (process_natneg_report result ip₁ ip₂ s ≡ returns s')
      × (data_of s' p (conn_of s q) ≡ (if result == 1 then b'2' ∷ [] else b'3' ∷ []))
      × (data_of s' p conn_fail ≡ (if result == 1 then data_of s p conn_fail else itoa (suc m)))
      × (data_of s' q (conn_of s p) ≡ (if result == 1 then b'2' ∷ [] else b'3' ∷ []))
      × (data_of s' q conn_fail ≡ (if result == 1 then data_of s q conn_fail else itoa (suc n)))
unfolding process_natneg_report same_group is_at
process_natneg_report-marks result key₁ key₂ p q g m n ip₁ ip₂ s e₁ e₂ h₁ h₂ k₁ k₂ apart other
      other' count count' =
    let (a, b, c, d) = report_pair-marks result p q s apart other other' in
    let more = increment-IsCount (data_of s p conn_fail) m count in
    let more' = increment-IsCount (data_of s q conn_fail) n count' in
    (
      report_pair result p q s,
      ground arith,
      a,
      b ∙ ap (λ x. if result == 1 then data_of s p conn_fail else x) more,
      c,
      d ∙ ap (λ x. if result == 1 then data_of s q conn_fail else x) more',
    )
