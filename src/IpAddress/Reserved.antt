-- ===== src/IpAddress/Reserved.antt =====
-- IsReservedIP of common/ip_address.go: the comparison of shifted int32 values decides membership
-- in the listed blocks.
use wfc_server.Prelude.{
  ℕ, ◌+◌, ◌*◌, ◌/◌, ◌-◌, ◌^◌, ◌≤◌, ◌<◌, ◌≡◌, ◌↔◌, ◌⊎◌, Bool, true, false, ◌||◌, List, [], ◌∷◌, All,
  ltb, ◌==◌, if◌then◌else◌, arith,
}
use wfc_server.Prelude.Words.{IsU32}

pub record ReservedIp : Type 0 where
  pub ip : ℕ
  pub mask : ℕ

abbrev pub block : ℕ → ℕ → ℕ → ℕ → ℕ → ReservedIp
block a b c d mask = record { ip = a * 0x1000000 + b * 0x10000 + c * 0x100 + d; mask = mask }

abbrev pub reserved_ip_list : List ReservedIp
reserved_ip_list =
    block 0 0 0 0 8
    ∷ block 10 0 0 0 8
    ∷ block 100 64 0 0 10
    ∷ block 127 0 0 0 8
    ∷ block 169 254 0 0 16
    ∷ block 172 16 0 0 12
    ∷ block 192 0 0 0 24
    ∷ block 192 0 2 0 24
    ∷ block 192 31 196 0 24
    ∷ block 192 52 193 0 24
    ∷ block 192 88 99 0 24
    ∷ block 192 168 0 0 16
    ∷ block 192 175 48 0 24
    ∷ block 198 18 0 0 15
    ∷ block 198 51 100 0 24
    ∷ block 203 0 113 0 24
    ∷ block 224 0 0 0 4
    ∷ block 240 0 0 0 4
    ∷ []

-- `>>` on an int32 keeps the sign: the bits that come in are copies of the top bit.
unfoldable pub shift_right32 : ℕ → ℕ → ℕ
shift_right32 v k =
    if ltb v 0x80000000 then v / 2 ^ k else v / 2 ^ k + (0x100000000 - 0x100000000 / 2 ^ k)

unfoldable pub is_reserved_in : List ReservedIp → ℕ → Bool
is_reserved_in [] ip = false
is_reserved_in (r ∷ rest) ip =
    shift_right32 ip (32 - r.mask) == shift_right32 r.ip (32 - r.mask) || is_reserved_in rest ip

unfoldable pub is_reserved_ip : ℕ → Bool
unfolding is_reserved_in
is_reserved_ip ip = is_reserved_in reserved_ip_list ip

-- The addresses of a block: from its first on, as many as its free bits give.
abbrev pub InBlock : ℕ → ReservedIp → Type 0
InBlock ip r = (r.ip ≤ ip) × (ip < r.ip + 2 ^ (32 - r.mask))

-- The address lies in one of the blocks.
abbrev pub InSome : ℕ → List ReservedIp → Type 0
InSome ip [] = ⊥
InSome ip (r ∷ rest) = InBlock ip r ⊎ InSome ip rest

-- The comparison of the shifted values decides membership in the block.
abbrev Decides : ReservedIp → Type 0
Decides r =
    (ip : ℕ)
    → IsU32 ip
    → ((shift_right32 ip (32 - r.mask) == shift_right32 r.ip (32 - r.mask)) ≡ true) ↔ InBlock ip r

reserved_ip_list-Decides : All Decides reserved_ip_list
unfolding shift_right32
reserved_ip_list-Decides = (
  (λ ip h. ground arith),
  (
    (λ ip h. ground arith),
    (
      (λ ip h. ground arith),
      (
        (λ ip h. ground arith),
        (
          (λ ip h. ground arith),
          (
            (λ ip h. ground arith),
            (
              (λ ip h. ground arith),
              (
                (λ ip h. ground arith),
                (
                  (λ ip h. ground arith),
                  (
                    (λ ip h. ground arith),
                    (
                      (λ ip h. ground arith),
                      (
                        (λ ip h. ground arith),
                        (
                          (λ ip h. ground arith),
                          (
                            (λ ip h. ground arith),
                            (
                              (λ ip h. ground arith),
                              (
                                (λ ip h. ground arith),
                                ((λ ip h. ground arith), ((λ ip h. ground arith), tt)),
                              ),
                            ),
                          ),
                        ),
                      ),
                    ),
                  ),
                ),
              ),
            ),
          ),
        ),
      ),
    ),
  ),
)

is_reserved_in_iff :
    (l : List ReservedIp) (ip : ℕ)
    → IsU32 ip
    → All Decides l
    → (is_reserved_in l ip ≡ true) ↔ InSome ip l
unfolding is_reserved_in
is_reserved_in_iff [] ip h a = ground arith
is_reserved_in_iff (r ∷ rest) ip h a = ground (arith, a.0 ip h, is_reserved_in_iff rest ip h a.1)

-- IsReservedIP holds of exactly the addresses in the listed blocks, those above 2 ^ 31, which are
-- negative as an int32, included.
pub is_reserved_ip_iff :
    (ip : ℕ) → IsU32 ip → (is_reserved_ip ip ≡ true) ↔ InSome ip reserved_ip_list
unfolding is_reserved_ip
is_reserved_ip_iff ip h = is_reserved_in_iff reserved_ip_list ip h reserved_ip_list-Decides
