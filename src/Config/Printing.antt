-- ===== src/Config/Printing.antt =====
-- common/src/config.c: a file that is printed line by line from its headings, settings and remarks.
use void_os_merger.Base.{
  is_space, skip_space, c_string, ℕ, suc, ◌-◌, ◌<◌, ◌≡◌, refl, ◌∙◌, ap, ap₂, Bool, true, false,
  some, List, [], ◌∷◌, ◌++◌, arith, ◌==◌, take, drop, length, Bytes, strncpy, length-append, All,
  take_all,
}
use void_os_merger.Config.{
  trim_end, Reader, trim_whitespace, strchr, strip_comment, fgets_lines, hash_sign, semicolon,
  max_line_len, max_name_len, set_config_entry, read_section, read_entry, read_text, read_line,
  read_lines, vom_config_defaults, vom_config_load,
}
use void_os_merger.Config.Lines.{
  IsWithout, strchr-append, strchr_after, take-length, drop-length, c_string_self,
  strip_comment_self, strip_comment_hash, starts_with_space, ends_with_space, trim_whitespace_self,
  trim_whitespace_newline, ends_with_space-append, fgets_lines_line,
}

pub data Item : Type 0 where
  heading : Bytes → Item
  setting : Bytes → Bytes → Item
  remark : Bytes → Item

-- The line of an item, without its newline.
unfoldable pub text_of : Item → Bytes
text_of (heading section) = 91 ∷ (section ++ 93 ∷ [])
text_of (setting key val) = key ++ 61 ∷ val
text_of (remark text) = hash_sign ∷ text

unfoldable pub print : List Item → Bytes
print [] = []
print (item ∷ items) = text_of item ++ 10 ∷ print items

-- What an item asks for.
unfoldable pub follow : Reader → Item → Reader
follow r (heading section) = record r { current_section = section }
follow r (setting key val) = record r {
  config = set_config_entry r.config r.current_section key val;
}
follow r (remark text) = r

unfoldable pub follow_all : Reader → List Item → Reader
follow_all r [] = r
follow_all r (item ∷ items) = follow_all (follow r item) items

-- A text within one line, without a comment, that neither starts nor ends with a space.
pub record IsPlain (s : Bytes) : Type 0 where
  pub no_nul : IsWithout 0 s
  pub no_newline : IsWithout 10 s
  pub no_hash : IsWithout hash_sign s
  pub no_semicolon : IsWithout semicolon s
  pub starts : starts_with_space s ≡ false
  pub ends : ends_with_space s ≡ false

unfoldable pub starts_heading : Bytes → Bool
starts_heading [] = false
starts_heading (b ∷ bs) = b == 91

-- The names and values that stand for themselves in a file, in lines that `fgets` reads whole.
unfoldable pub IsWritable : Item → Type 0
IsWritable (heading section) =
    IsPlain section × IsWithout 93 section × (length section < max_name_len)
IsWritable (setting key val) =
    IsPlain key
    × IsPlain val
    × IsWithout 61 key
    × (starts_heading key ≡ false)
    × (length (key ++ 61 ∷ val) < max_line_len - 1)
IsWritable (remark text) = IsWithout 10 text × (length (hash_sign ∷ text) < max_line_len - 1)

read_line_plain : (r : Reader) (s : Bytes) → IsPlain s → read_line r (s ++ 10 ∷ []) ≡ read_text s r
unfolding read_line
read_line_plain r s p =
    let line = s ++ 10 ∷ [] in
    ap (λ t. read_text t r)
      (ap (λ t. trim_whitespace (strip_comment t))
          (c_string_self line (strchr-append 0 s (10 ∷ []) p.no_nul (unfold strchr in refl)))
        ∙ (ap trim_whitespace (
              strip_comment_self line
                (strchr-append hash_sign s (10 ∷ []) p.no_hash (unfold strchr in refl))
                (strchr-append semicolon s (10 ∷ []) p.no_semicolon (unfold strchr in refl)))
            ∙ (trim_whitespace_newline s ∙ trim_whitespace_self s p.starts p.ends)))

IsPlain-setting : (key val : Bytes) → IsPlain key → IsPlain val → IsPlain (key ++ 61 ∷ val)
unfolding strchr
IsPlain-setting key val p q = record {
  no_nul = strchr-append 0 key (61 ∷ val) p.no_nul (rw q.no_nul refl);
  no_newline = strchr-append 10 key (61 ∷ val) p.no_newline (rw q.no_newline refl);
  no_hash = strchr-append hash_sign key (61 ∷ val) p.no_hash (rw q.no_hash refl);
  no_semicolon = strchr-append semicolon key (61 ∷ val) p.no_semicolon (rw q.no_semicolon refl);
  starts = starts_setting key p.starts;
  ends = ends_with_space-append key val 61 (unfold is_space in refl) q.ends;
}
  where
    starts_setting :
        (k : Bytes) → starts_with_space k ≡ false → starts_with_space (k ++ 61 ∷ val) ≡ false
    starts_setting [] h = unfold starts_with_space is_space in refl
    starts_setting (b ∷ k) h = unfold starts_with_space in h

IsPlain-heading : (section : Bytes) → IsPlain section → IsPlain (91 ∷ (section ++ 93 ∷ []))
unfolding strchr starts_with_space is_space
IsPlain-heading section p = record {
  no_nul = rw (strchr-append 0 section (93 ∷ []) p.no_nul refl) refl;
  no_newline = rw (strchr-append 10 section (93 ∷ []) p.no_newline refl) refl;
  no_hash = rw (strchr-append hash_sign section (93 ∷ []) p.no_hash refl) refl;
  no_semicolon = rw (strchr-append semicolon section (93 ∷ []) p.no_semicolon refl) refl;
  starts = refl;
  ends = ends_with_space-append (91 ∷ section) [] 93 refl (unfold ends_with_space in refl);
}

read_section_found :
    (s : Bytes) (end : ℕ) (r : Reader)
    → strchr 93 s ≡ some end
    → read_section s r
      ≡ record r { current_section = strncpy max_name_len (trim_whitespace (drop 1 (take end s))) }
unfolding read_section
read_section_found s end r e = ground arith

read_entry_found :
    (s : Bytes) (eq : ℕ) (r : Reader)
    → strchr 61 s ≡ some eq
    → read_entry s r ≡ record r {
      config =
          set_config_entry r.config r.current_section
            (trim_whitespace (take eq s))
            (trim_whitespace (drop (suc eq) s));
    }
unfolding read_entry
read_entry_found s eq r e = ground arith

read_heading :
    (r : Reader) (section : Bytes)
    → IsPlain section
    → IsWithout 93 section
    → length section < max_name_len
    → read_text (91 ∷ (section ++ 93 ∷ [])) r ≡ record r { current_section = section }
unfolding read_text
read_heading r section p h fits =
    let found = strchr_after 93 (91 ∷ section) [] (unfold strchr in rw h refl) in
    read_section_found (91 ∷ (section ++ 93 ∷ [])) (suc (length section)) r found
    ∙ ap (λ name. record r { current_section = name })
        (ap (λ t. strncpy max_name_len (trim_whitespace t)) (take-length section (93 ∷ []))
          ∙ (ap (strncpy max_name_len) (trim_whitespace_self section p.starts p.ends)
              ∙ take_all 63 section (omega (arith, fits))))

read_text_entry :
    (r : Reader) (key val : Bytes)
    → starts_heading key ≡ false
    → read_text (key ++ 61 ∷ val) r ≡ read_entry (key ++ 61 ∷ val) r
unfolding read_text starts_heading
read_text_entry r [] val h = refl
read_text_entry r (b ∷ key) val h = rw h refl

read_setting :
    (r : Reader) (key val : Bytes)
    → IsPlain key
    → IsPlain val
    → IsWithout 61 key
    → read_entry (key ++ 61 ∷ val) r
      ≡ record r { config = set_config_entry r.config r.current_section key val }
read_setting r key val p q h =
    read_entry_found (key ++ 61 ∷ val) (length key) r (strchr_after 61 key val h)
    ∙ ap₂ (λ k v. record r { config = set_config_entry r.config r.current_section k v })
        (ap trim_whitespace (take-length key (61 ∷ val)) ∙ trim_whitespace_self key p.starts p.ends)
        (ap trim_whitespace (drop-length key val 61) ∙ trim_whitespace_self val q.starts q.ends)

-- A comment leaves nothing of its line.
read_remark : (r : Reader) (text : Bytes) → read_line r (hash_sign ∷ text) ≡ r
unfolding read_line c_string read_text trim_whitespace trim_end skip_space
read_remark r text = ap (λ t. read_text (trim_whitespace t) r) (strip_comment_hash (c_string text))

read_item :
    (r : Reader) (item : Item)
    → IsWritable item
    → read_line r (text_of item ++ 10 ∷ []) ≡ follow r item
unfolding text_of follow IsWritable
read_item r (heading section) (p, h, fits) =
    read_line_plain r _ (IsPlain-heading section p) ∙ read_heading r section p h fits
read_item r (setting key val) (p, q, h, s, fits) =
    read_line_plain r _ (IsPlain-setting key val p q)
    ∙ (read_text_entry r key val s ∙ read_setting r key val p q h)
read_item r (remark text) w = read_remark r (text ++ 10 ∷ [])

text_of-IsWithout : (item : Item) → IsWritable item → IsWithout 10 (text_of item)
unfolding text_of IsWritable strchr
text_of-IsWithout (heading section) (p, _, _) = (IsPlain-heading section p).no_newline
text_of-IsWithout (setting key val) (p, q, _, _, _) = (IsPlain-setting key val p q).no_newline
text_of-IsWithout (remark text) (h, _) = rw h refl

text_of-fits : (item : Item) → IsWritable item → length (text_of item) < max_line_len - 1
unfolding text_of IsWritable
text_of-fits (heading section) (p, h, fits) = omega (arith, fits, length-append section (93 ∷ []))
text_of-fits (setting key val) (p, q, h, s, fits) = fits
text_of-fits (remark text) (h, fits) = fits

read_lines-print :
    (r : Reader) (items : List Item)
    → All IsWritable items
    → read_lines r (fgets_lines (max_line_len - 1) (print items)) ≡ follow_all r items
unfolding print follow_all fgets_lines read_lines
read_lines-print r [] w = refl
read_lines-print r (item ∷ items) w =
    ap (read_lines r) (
      fgets_lines_line (max_line_len - 1) (text_of item) (print items) (text_of-IsWithout item w.0)
        (text_of-fits item w.0))
    ∙ (ap (λ q. read_lines q (fgets_lines (max_line_len - 1) (print items))) (read_item r item w.0)
        ∙ read_lines-print (follow r item) items w.1)

-- A file printed line by line from headings, settings and remarks that stand for themselves (no NUL,
-- newline or comment in a name or value, no space at its ends, each line within the buffer) loads, and gives
-- the defaults changed by the settings in their order, each under the heading before it.
pub vom_config_load-print :
    (items : List Item)
    → All IsWritable items
    → vom_config_load (some (print items)) ≡ (
      (follow_all (record { current_section = []; config = vom_config_defaults }) items).config,
      true,
    )
unfolding vom_config_load
vom_config_load-print items w =
    ap (λ r. (r.config, true))
      (read_lines-print (record { current_section = []; config = vom_config_defaults }) items w)
