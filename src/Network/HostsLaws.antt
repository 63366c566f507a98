-- ===== src/Network/HostsLaws.antt =====
-- MiscBlocks/Transmission.cpp, `parse_tls_hosts`: the fields of `host:port#ca#cert#key` are read back.
use es_sensor.Prelude.{
  ℕ, suc, ◌+◌, ◌-◌, ◌≤◌, ◌≡◌, ◌≢◌, ◌↔◌, refl, sym, ap, ◌∙◌, inl, inr, false, Option, none, some, [],
  ◌∷◌, ◌++◌, arith, ◌==◌, if◌then◌else◌, Text, codes, text_eq, text_eq_iff, Bool-cases, length,
  take, drop, take_all, drop-drop, drop-append, drop-length-add, take-append, length-append,
}
use mathlib.Core.List.{append_assoc}
use es_sensor.Context.Split.{find_from, find_first_of}
use es_sensor.Context.SplitLaws.{Lacks}
use es_sensor.Network.Hosts.{
  tcp, tls, Hosts, no_hosts, connection_type, substr, parse_host, parse_field, parse_loop,
  parse_tls_hosts,
}

find_from_hit :
    (d : ℕ) (w t : Text) (i : ℕ) → Lacks d w → find_from d (w ++ (d ∷ t)) i ≡ some (i + length w)
unfolding find_from
find_from_hit d [] t i a = ground arith
find_from_hit d (x ∷ w) t i a = ground (arith, find_from_hit d w t (i + 1) a.1)

find_from_miss : (d : ℕ) (w : Text) (i : ℕ) → Lacks d w → find_from d w i ≡ none
unfolding find_from
find_from_miss d [] i a = refl
find_from_miss d (x ∷ w) i a = ground (arith, find_from_miss d w (i + 1) a.1)

-- `w` stands in `s` behind `pre` and in front of a separator.
module _ (s pre w t : Text) (e : s ≡ pre ++ (w ++ (b'#' ∷ t))) (a : Lacks b'#' w) where
  abbrev next : ℕ
  next = length pre + length w + 1

  here : drop (length pre) s ≡ w ++ (b'#' ∷ t)
  here = ap (drop (length pre)) e ∙ drop-append pre (w ++ (b'#' ∷ t))

  behind : drop next s ≡ t
  behind =
      ap (λ n. drop n s)
        (let e : length pre + length w + 1 ≡ length pre + (length w + 1) = omega arith in e)
      ∙ sym (drop-drop (length w + 1) (length pre) s)
      ∙ ap (drop (length w + 1)) here
      ∙ drop-length-add w (b'#' ∷ t) 1

  loop_field :
      (fuel iter : ℕ) (h : Hosts)
      → parse_loop (suc fuel) iter s (length pre) (find_first_of b'#' s (length pre)) h
        ≡ parse_loop fuel
            (iter + 1)
            s
            next
            (find_first_of b'#' s next)
            (parse_field iter s (length pre) (length pre + length w) h)
  unfolding parse_loop find_first_of
  loop_field fuel iter h = rw (here, find_from_hit b'#' w t (length pre) a) refl

  field : substr s (length pre) (length pre + length w - length pre) ≡ w
  unfolding substr
  field =
      ap (λ l. take (length pre + length w - length pre) l) here
      ∙ ap (λ n. take n (w ++ (b'#' ∷ t))) (omega arith)
      ∙ take-append w (b'#' ∷ t)

  last_field : substr s next (length s - (length pre + length w)) ≡ t
  unfolding substr
  last_field =
      ap (take (length s - (length pre + length w))) behind
      ∙ take_all _ t (
          let size : length s ≡ length pre + (length w + suc (length t)) =
            ap length e
            ∙ length-append pre (w ++ (b'#' ∷ t))
            ∙ ap (λ n. length pre + n) (length-append w (b'#' ∷ t)) in
          omega arith)

  -- The text before the next field.
  abbrev before : Text
  before = pre ++ (w ++ (b'#' ∷ []))

  length-before : length before ≡ next
  length-before =
      length-append pre (w ++ (b'#' ∷ []))
      ∙ ap (λ n. length pre + n) (length-append w (b'#' ∷ []))
      ∙ omega arith

  before-rest : s ≡ before ++ t
  before-rest =
      e
      ∙ ap (◌++◌ pre) (sym (append_assoc w (b'#' ∷ []) t))
      ∙ sym (append_assoc pre (w ++ (b'#' ∷ [])) t)

  advance :
      (fuel iter : ℕ) (h h' : Hosts)
      → parse_field iter s (length pre) (length pre + length w) h ≡ h'
      → parse_loop (suc fuel) iter s (length pre) (find_first_of b'#' s (length pre)) h
        ≡ parse_loop fuel (iter + 1) s (length before) (find_first_of b'#' s (length before)) h'
  advance fuel iter h h' f =
      loop_field fuel iter h
      ∙ ap (parse_loop fuel (iter + 1) s next (find_first_of b'#' s next)) f
      ∙ ap (λ n. parse_loop fuel (iter + 1) s n (find_first_of b'#' s n) h') (sym length-before)

loop_ends :
    (fuel iter : ℕ) (s pre t : Text) (h : Hosts)
    → s ≡ pre ++ t
    → Lacks b'#' t
    → parse_loop fuel iter s (length pre) (find_first_of b'#' s (length pre)) h ≡ h
unfolding parse_loop find_first_of
loop_ends fuel iter s pre t h e a =
    ap (λ o. parse_loop fuel iter s (length pre) o h)
      (ap (λ u. find_from b'#' u (length pre)) (ap (drop (length pre)) e ∙ drop-append pre t)
        ∙ find_from_miss b'#' t (length pre) a)

parse_host-join :
    (host port : Text) (h : Hosts)
    → Lacks b':' host
    → parse_host (host ++ (b':' ∷ port)) h ≡ record h { host = host; port = port }
unfolding parse_host find_first_of
parse_host-join host port h a =
    let field = host ++ (b':' ∷ port) in
    let found : Option ℕ → Hosts = λ o. elim o [
      | none ↦ record h { host = field; port = field }
      | some end2 ↦ record h { host = take end2 field; port = drop (end2 + 1) field }
    ] in
    let at : find_from b':' field 0 ≡ some (length host) =
      find_from_hit b':' host port 0 a ∙ ap some (omega arith) in
    ap found at
    ∙ ap (λ w. record h { host = w; port = drop (length host + 1) field })
        (take-append host (b':' ∷ port))
    ∙ ap (λ w. record h { host = host; port = w }) (drop-length-add host (b':' ∷ port) 1)

abbrev pub tls_hosts : Hosts → Text
tls_hosts h =
    (h.host ++ (b':' ∷ h.port)) ++ (b'#' ∷ (h.ca_cert ++ (b'#' ∷ (h.cert ++ (b'#' ∷ h.key)))))

parse_loop-tls_hosts :
    (fuel : ℕ) (h : Hosts)
    → Lacks b':' h.host
    → Lacks b'#' (h.host ++ (b':' ∷ h.port))
    → Lacks b'#' h.ca_cert
    → Lacks b'#' h.cert
    → Lacks b'#' h.key
    → let s = tls_hosts h in
      parse_loop (suc (suc (suc fuel))) 0 s 0 (find_first_of b'#' s 0) no_hosts ≡ h
unfolding parse_field
parse_loop-tls_hosts fuel h colon first ca cert key =
    let s = tls_hosts h in
    let hp = h.host ++ (b':' ∷ h.port) in
    let t2 = h.cert ++ (b'#' ∷ h.key) in
    let t1 = h.ca_cert ++ (b'#' ∷ t2) in
    let pre1 = before s [] hp t1 refl first in
    let e1 = before-rest s [] hp t1 refl first in
    let pre2 = before s pre1 h.ca_cert t2 e1 ca in
    let e2 = before-rest s pre1 h.ca_cert t2 e1 ca in
    let pre3 = before s pre2 h.cert h.key e2 cert in
    let e3 = before-rest s pre2 h.cert h.key e2 cert in
    let h1 : Hosts = record no_hosts { host = h.host; port = h.port } in
    let h2 : Hosts = record h1 { ca_cert = h.ca_cert } in
    advance s [] hp t1 refl first (suc (suc fuel)) 0 no_hosts h1 (
      ap (λ w. parse_host w no_hosts) (field s [] hp t1 refl first)
      ∙ parse_host-join h.host h.port no_hosts colon)
    ∙ advance s pre1 h.ca_cert t2 e1 ca (suc fuel) 1 h1 h2
        (ap (λ w. record h1 { ca_cert = w }) (field s pre1 h.ca_cert t2 e1 ca))
    ∙ advance s pre2 h.cert h.key e2 cert fuel 2 h2 h (
        ap
          (λ w. record h2 {
            cert = w;
            key =
                substr s (length pre2 + length h.cert + 1)
                  (length s - (length pre2 + length h.cert));
          })
          (field s pre2 h.cert h.key e2 cert)
        ∙ ap (λ w. record h2 { cert = h.cert; key = w }) (last_field s pre2 h.cert h.key e2 cert))
    ∙ loop_ends fuel 3 s pre3 h.key h e3 key

three : (n : ℕ) → 3 ≤ n → (k : ℕ) × (n ≡ suc (suc (suc k)))
three n h = (n - 3, omega arith)

length-tls_hosts : (h : Hosts) → 3 ≤ length (tls_hosts h)
length-tls_hosts h =
    let hp = h.host ++ (b':' ∷ h.port) in
    let t = h.cert ++ (b'#' ∷ h.key) in
    omega (
      arith,
      length-append hp (b'#' ∷ (h.ca_cert ++ (b'#' ∷ t))),
      length-append h.ca_cert (b'#' ∷ t),
      length-append h.cert (b'#' ∷ h.key),
    )

not_zero : (h : Hosts) → text_eq (tls_hosts h) (codes "0") ≡ false
not_zero h = elim (Bool-cases (text_eq (tls_hosts h) (codes "0"))) [
  | inl same ↦
      let one : length (tls_hosts h) ≡ 1 = ap length ((text_eq_iff _ _).0 same) in
      absurd (omega (arith, length-tls_hosts h))
  | inr different ↦ different
]

connection_type_iff : (ca : Text) → ((if length ca == 0 then tcp else tls) ≡ tls) ↔ (ca ≢ [])
connection_type_iff [] = (λ e. cc, λ h. absurd (h refl))
connection_type_iff (x ∷ ca) = (λ e e'. cc, λ h. ground arith)

-- `host:port#ca#cert#key` is read back as its five fields, if the host has no colon and no field has
-- a `#`; the connection is TLS exactly when the name of the CA's certificate is not empty.
pub parse_tls_hosts-tls_hosts :
    (h : Hosts)
    → Lacks b':' h.host
    → Lacks b'#' (h.host ++ (b':' ∷ h.port))
    → Lacks b'#' h.ca_cert
    → Lacks b'#' h.cert
    → Lacks b'#' h.key
    → (parse_tls_hosts (tls_hosts h) ≡ some (h, connection_type h))
      × ((connection_type h ≡ tls) ↔ (h.ca_cert ≢ []))
unfolding parse_tls_hosts connection_type
parse_tls_hosts-tls_hosts h colon first ca cert key =
    let (fuel, e) = three (length (tls_hosts h)) (length-tls_hosts h) in
    let s = tls_hosts h in
    let h' = parse_loop (length s) 0 s 0 (find_first_of b'#' s 0) no_hosts in
    let parsed : parse_loop (length s) 0 s 0 (find_first_of b'#' s 0) no_hosts ≡ h =
      ap (λ n. parse_loop n 0 s 0 (find_first_of b'#' s 0) no_hosts) e
      ∙ parse_loop-tls_hosts fuel h colon first ca cert key in
    (
      ap (λ b. if b then none else some (h', connection_type h')) (not_zero h)
          ∙ ap (λ g. some (g, connection_type g)) parsed,
      connection_type_iff h.ca_cert,
    )
