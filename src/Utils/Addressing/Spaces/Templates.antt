-- ===== src/Utils/Addressing/Spaces/Templates.antt =====
-- The templates that the radio address space hands to `str.format`: which braces they have.
use aiocflib.Prelude.{ℕ, ◌≡◌, ◌≢◌, [], ◌∷◌, ◌++◌, All, All-map, append_assoc, arith, sym, suc}
use aiocflib.Prelude.Integers.{ℤ, pos, negsuc}
use aiocflib.Crazyflie.Names.{Text}
use aiocflib.Utils.Addressing.{CrazyradioDataRate, dr_250kps, dr_1mps, dr_2mps, data_rate_text}
use aiocflib.Utils.Addressing.Numerals.{int_text, decimal}
use aiocflib.Utils.Addressing.Digits.{All-decimal}
use aiocflib.Utils.Addressing.Spaces.{RadioAddressSpace, uri_prefix, uri_format, first_argument}

-- A character that is no brace.
abbrev pub NoBrace : ℕ → Type 0
NoBrace c = (c ≢ b'{') × (c ≢ b'}')

All-append : (xs ys : Text) → All NoBrace xs → All NoBrace ys → All NoBrace (xs ++ ys)
All-append [] ys h k = k
All-append (x ∷ xs) ys h k = (h.0, All-append xs ys h.1 k)

decimal-NoBrace : (n : ℕ) → All NoBrace (decimal n)
decimal-NoBrace n =
    All-map (λ c h. (λ e. omega (arith, h.1, e), λ e. omega (arith, h.1, e))) (decimal n)
      (All-decimal n)

int_text-NoBrace : (n : ℤ) → All NoBrace (int_text n)
unfolding int_text
int_text-NoBrace (pos n) = decimal-NoBrace n
int_text-NoBrace (negsuc n) =
    ((λ e. omega (arith, e), λ e. omega (arith, e)), decimal-NoBrace (suc n))

data_rate_text-NoBrace : (r : CrazyradioDataRate) → All NoBrace (data_rate_text r)
unfolding data_rate_text
data_rate_text-NoBrace dr_250kps = ground arith
data_rate_text-NoBrace dr_1mps = ground arith
data_rate_text-NoBrace dr_2mps = ground arith

slash-NoBrace : NoBrace b'/'
slash-NoBrace = (λ e. omega (arith, e), λ e. omega (arith, e))

colon-NoBrace : NoBrace b':'
colon-NoBrace = (λ e. omega (arith, e), λ e. omega (arith, e))

uri_prefix-NoBrace :
    (space : RadioAddressSpace) → All NoBrace space.scheme → All NoBrace (uri_prefix space)
unfolding uri_prefix
uri_prefix-NoBrace space h =
    let rate = data_rate_text-NoBrace space.data_rate in
    let channel : All NoBrace (int_text space.channel ++ (b'/' ∷ data_rate_text space.data_rate)) =
      All-append _ _ (int_text-NoBrace space.channel) (slash-NoBrace, rate) in
    let index = All-append _ _ (int_text-NoBrace space.index) (slash-NoBrace, channel) in
    All-append _ _ h (colon-NoBrace, (slash-NoBrace, (slash-NoBrace, index)))

-- A formatting that puts its argument behind a text without braces does so with an address.
pub format-uri_format :
    {A : Type 0} (format : Text → Text → A) (result : Text → A) (space : RadioAddressSpace)
    (argument : Text)
    → ((literal x : Text)
        → All NoBrace literal
        → format (literal ++ first_argument) x ≡ result (literal ++ x))
    → All NoBrace space.scheme
    → format (uri_format space) argument ≡ result (uri_prefix space ++ (b'/' ∷ argument))
unfolding uri_format
format-uri_format format result space argument formats plain =
    let literal = uri_prefix space ++ b'/' ∷ [] in
    let no_brace = All-append _ _ (uri_prefix-NoBrace space plain) (slash-NoBrace, tt) in
    rw
      (
        sym (append_assoc (uri_prefix space) (b'/' ∷ []) first_argument),
        sym (append_assoc (uri_prefix space) (b'/' ∷ []) argument),
      )
      (formats literal argument no_brace)
