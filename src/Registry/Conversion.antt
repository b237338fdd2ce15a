-- ===== src/Registry/Conversion.antt =====
-- The conversions between int64_t and double that src/schema_registry.cpp casts by, on 64-bit patterns.
use stratavm.Base.{
  ℕ, zero, suc, ◌+◌, ◌-◌, ◌*◌, ◌/◌, ◌%◌, ◌^◌, leb, ltb, ◌==◌, ◌&&◌, ◌||◌, if◌then◌else◌,
}
use stratavm.Status.{Result, ok, fault, bad_conversion}

-- The position of the highest digit of `a`, which has at most `fuel` more.
unfoldable pub exponent : ℕ → ℕ → ℕ
exponent zero a = 0
exponent (suc fuel) a = let more = exponent fuel (a / 2) in if ltb a 2 then 0 else more + 1

-- Rounds `a / 2 ^ shift` to the nearest, to the even one where two are.
unfoldable pub rounded : ℕ → ℕ → ℕ
rounded a shift =
    let q = a / 2 ^ shift in
    let r = 2 * (a % 2 ^ shift) in
    if ltb (2 ^ shift) r || (r == 2 ^ shift && q % 2 == 1) then q + 1 else q

-- The double next to `a`. A significand that rounds up to 2^53 carries into the exponent.
unfoldable pub magnitude_to_double : ℕ → ℕ
unfolding exponent rounded
magnitude_to_double a =
    let e = exponent 64 a in
    if a == 0
    then 0
    else if leb e 52
    then (e + 1022) * 2 ^ 52 + a * 2 ^ (52 - e)
    else (e + 1022) * 2 ^ 52 + rounded a (e - 52)

-- `static_cast<double>`
unfoldable pub int_to_double : ℕ → ℕ
unfolding magnitude_to_double
int_to_double v =
    if ltb v (2 ^ 63) then magnitude_to_double v else 2 ^ 63 + magnitude_to_double (2 ^ 64 - v)

-- The integral part of a double's magnitude, where its exponent is below 1023 + 64.
unfoldable pub truncated_magnitude : ℕ → ℕ
truncated_magnitude bits =
    let e = bits / 2 ^ 52 % 2048 in
    let m = 2 ^ 52 + bits % 2 ^ 52 in
    if ltb e 1023 then 0 else if leb e 1075 then m / 2 ^ (1075 - e) else m * 2 ^ (e - 1075)

-- `static_cast<int64_t>`, undefined where the integral part does not fit.
unfoldable pub double_to_int : ℕ → Result ℕ
unfolding truncated_magnitude
double_to_int bits =
    let e = bits / 2 ^ 52 % 2048 in
    let a = truncated_magnitude bits in
    let negative = leb (2 ^ 63) bits in
    if leb 1087 e
    then fault bad_conversion
    else if negative
    then (if leb a (2 ^ 63) then ok ((2 ^ 64 - a) % 2 ^ 64) else fault bad_conversion)
    else (if ltb a (2 ^ 63) then ok a else fault bad_conversion)
