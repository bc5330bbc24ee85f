-- ===== src/Api/Keys.antt =====
-- `ns_key` of crates/tideline-server/src/api.rs: one name of a stream for each tenant.
use Prim.Native.Char.{Char, code}
use tideline.Base.{
  ℕ, ◌≡◌, ◌⊎◌, inl, inr, refl, sym, ap, ap₂, ◌∙◌, subst, String, true, Option, none, some, List, [],
  ◌∷◌, ◌++◌, arith, as_bytes, utf8, dec_text, ◌&&◌, if_pos, if_neg,
}
use tideline.Proto.Canon.{unwrap_or}
use tideline.Routes.{valid_id, id_byte, all_id_bytes, join}
use tideline.Api.{ns_key}

all_id_bytes-append :
    (xs ys : List ℕ) → all_id_bytes (xs ++ ys) ≡ (all_id_bytes xs && all_id_bytes ys)
unfolding all_id_bytes
all_id_bytes-append [] ys = refl
all_id_bytes-append (x ∷ xs) ys = ground (arith, all_id_bytes-append xs ys)

-- A text of id bytes only.
abbrev IsPlain : String → Type 0
IsPlain s = all_id_bytes (as_bytes s) ≡ true

IsPlain-tail : (c : Char) (s : String) → IsPlain (String.◌∷◌ c s) → IsPlain s
unfolding as_bytes
IsPlain-tail c s h = ground (arith, h, all_id_bytes-append (utf8 (code c)) (as_bytes s))

-- The separator is not in such a text.
not_plain : (ns id : String) → IsPlain (join ns (join "|" id)) → ⊥
unfolding join as_bytes utf8 all_id_bytes id_byte
not_plain String.[] id h = cc
not_plain (String.◌∷◌ c ns) id h = not_plain ns id (IsPlain-tail c (join ns (join "|" id)) h)

abbrev tail_of : String → String
tail_of String.[] = String.[]
tail_of (String.◌∷◌ c s) = s

abbrev head_or : Char → String → Char
head_or d String.[] = d
head_or d (String.◌∷◌ c s) = c

join_cancel :
    (ns ns' id id' : String)
    → IsPlain id
    → IsPlain id'
    → join ns (join "|" id) ≡ join ns' (join "|" id')
    → (ns ≡ ns') × (id ≡ id')
unfolding join
join_cancel String.[] String.[] id id' h k e = (refl, ap tail_of e)
join_cancel String.[] (String.◌∷◌ c ns') id id' h k e =
    absurd (not_plain ns' id' (subst IsPlain (ap tail_of e) h))
join_cancel (String.◌∷◌ c ns) String.[] id id' h k e =
    absurd (not_plain ns id (subst IsPlain (sym (ap tail_of e)) k))
join_cancel (String.◌∷◌ c ns) (String.◌∷◌ d ns') id id' h k e =
    let (rest, same) = join_cancel ns ns' id id' h k (ap tail_of e) in
    (ap₂ String.◌∷◌ (ap (head_or c) e) rest, same)

valid_id-IsPlain : (id : String) → valid_id id ≡ true → IsPlain id
unfolding valid_id
valid_id-IsPlain id h = ground (arith, h)

-- A stream has one name: two tenants' ids lead to the same key only when the namespaces are the same,
-- where none is the empty one, and the ids are, whatever the namespaces contain.
pub ns_key_cancel :
    (o o' : Option String) (id id' : String)
    → valid_id id ≡ true
    → valid_id id' ≡ true
    → ns_key o id ≡ ns_key o' id'
    → (unwrap_or "" o ≡ unwrap_or "" o') × (id ≡ id')
unfolding ns_key
ns_key_cancel o o' id id' v w e = parts (key_cases o id) (key_cases o' id')
  where
    -- A key is the id under no namespace, or has the separator.
    key_cases :
        (o : Option String) (id : String)
        → ((unwrap_or "" o ≡ "") × (ns_key o id ≡ id))
          ⊎ ((ns : String) × (unwrap_or "" o ≡ ns) × (ns_key o id ≡ join ns (join "|" id)))
    key_cases none id = inl (refl, refl)
    key_cases (some ns) id = elim (dec_text ns "") [
      | yes a ↦ inl (a, if_pos (dec_text ns "") a id (join ns (join "|" id)))
      | no a ↦ inr (ns, refl, if_neg (dec_text ns "") a id (join ns (join "|" id)))
    ]

    parts :
        ((unwrap_or "" o ≡ "") × (ns_key o id ≡ id))
          ⊎ ((ns : String) × (unwrap_or "" o ≡ ns) × (ns_key o id ≡ join ns (join "|" id)))
        → ((unwrap_or "" o' ≡ "") × (ns_key o' id' ≡ id'))
          ⊎ ((ns : String) × (unwrap_or "" o' ≡ ns) × (ns_key o' id' ≡ join ns (join "|" id')))
        → (unwrap_or "" o ≡ unwrap_or "" o') × (id ≡ id')
    parts (inl (a, q)) (inl (b, r)) = (a ∙ sym b, sym q ∙ e ∙ r)
    parts (inl (a, q)) (inr (ns, b, r)) =
        absurd (not_plain ns id' (subst IsPlain (sym q ∙ e ∙ r) (valid_id-IsPlain id v)))
    parts (inr (ns, a, q)) (inl (b, r)) =
        absurd (not_plain ns id (subst IsPlain (sym (sym q ∙ e ∙ r)) (valid_id-IsPlain id' w)))
    parts (inr (ns, a, q)) (inr (ns', b, r)) =
        let (x, y) =
          join_cancel ns ns' id id' (valid_id-IsPlain id v) (valid_id-IsPlain id' w)
            (sym q ∙ e ∙ r) in
        (a ∙ x ∙ sym b, y)
