-- ===== src/Proxy/Hostname.antt =====
-- The host name on its way from the client's `login` to the helper's (src/proxy.C).
use libptytty.Base.{
  ℕ, zero, suc, ◌≡◌, refl, ap, false, Bytes, [], ◌∷◌, ◌==◌, strncpy, c_string, set, take,
}
use libptytty.Proxy.Server.{host_of}

-- No byte is the terminator.
abbrev pub NoZero : Bytes → Type 0
NoZero [] = Unit {0}
NoZero (b ∷ s) = ((b == 0) ≡ false) × NoZero s

-- The last byte of the array is overwritten by the terminator, so the string ends before it.
c_string-strncpy :
    (m : ℕ) (s : Bytes) → NoZero s → c_string (set (strncpy s (suc m)) m 0) ≡ take m s
unfolding c_string strncpy
c_string-strncpy zero [] h = refl
c_string-strncpy zero (b ∷ s) h = refl
c_string-strncpy (suc m) [] h = refl
c_string-strncpy (suc m) (b ∷ s) h = rw h.0 (ap (◌∷◌ b) (c_string-strncpy m s h.1))

-- For a host name without a zero byte, the helper reads the first 511 bytes of it from the array
-- that the client filled.
pub host_of-strncpy : (host : Bytes) → NoZero host → host_of (strncpy host 512) ≡ take 511 host
unfolding host_of
host_of-strncpy host h = c_string-strncpy 511 host h
