-- ===== src/Acl/Saved/Fields.antt =====
-- A line of the data file of acl.c, written from an entry and scanned again.
use name_file_system_docs.Base.{
  ℕ, ◌+◌, ◌≤◌, ◌≡◌, refl, ap, ◌∙◌, List, [], ◌∷◌, ◌++◌, append_assoc, arith,
}
use name_file_system_docs.Base.Lists.{length, All, length-append}
use name_file_system_docs.Base.Strings.{CString}
use name_file_system_docs.Base.Split.{Lacks, Lacks-append, separated, IsPart}
use name_file_system_docs.Protocol.{max_content_len}
use name_file_system_docs.Acl.{AclEntry, AclTable}
use name_file_system_docs.Acl.Saved.{
  count_prefix, entry_line, format, has_prefix, load_fields, load_line, scan_fields,
}
use name_file_system_docs.Acl.Saved.Lines.{
  IsLine, IsPrintable, IsUser, Lacks-separated, by_test, has_prefix_before_bar, no_newline,
  saved_fields, scan_empty, scan_field, scan_last, separated-ne,
}

pub All-map :
    {A : Type 0} {P Q : A → Type 0} → ((x : A) → P x → Q x) → (xs : List A) → All P xs → All Q xs
All-map f [] a = tt
All-map f (x ∷ xs) a = (f x a.0, All-map f xs a.1)

bars : (us : List CString) → All IsUser us → Lacks b'|' (separated b',' us)
bars us a = Lacks-separated b',' b'|' us refl (All-map (λ u h. h.1) us a)

newlines : (us : List CString) → All IsUser us → Lacks 10 (separated b',' us)
newlines us a = Lacks-separated b',' 10 us refl (All-map (λ u h. h.2) us a)

tail_fields :
    (rs ws : List CString)
    → All IsUser rs
    → All IsUser ws
    → length (separated b',' rs) ≤ 4095
    → length (separated b',' ws) ≤ 4095
    → scan_fields
        ((4095, b'|') ∷ (4095, 10) ∷ [])
        (separated b',' rs ++ (b'|' ∷ (separated b',' ws ++ (10 ∷ []))))
      ≡ saved_fields rs ws
tail_fields [] ws a b k l = unfold separated in scan_empty 4095 b'|' _ _
tail_fields (r ∷ rs) [] a b k l =
    let part : IsPart b'|' (separated b',' (r ∷ rs)) =
      (separated-ne b',' r rs a.0.0.0, bars (r ∷ rs) a) in
    scan_field 4095 ((4095, 10) ∷ []) (separated b',' (r ∷ rs)) _ part k
    ∙ ap (λ (t : List CString). separated b',' (r ∷ rs) ∷ t)
        (unfold separated in scan_empty 4095 10 [] [])
tail_fields (r ∷ rs) (w ∷ ws) a b k l =
    let part : IsPart b'|' (separated b',' (r ∷ rs)) =
      (separated-ne b',' r rs a.0.0.0, bars (r ∷ rs) a) in
    scan_field 4095 ((4095, 10) ∷ []) (separated b',' (r ∷ rs)) _ part k
    ∙ ap (λ (t : List CString). separated b',' (r ∷ rs) ∷ t)
        (scan_last (separated b',' (w ∷ ws)) (separated-ne b',' w ws b.0.0.0) (newlines (w ∷ ws) b)
          l)

-- The line of an entry with its newline.
abbrev line_text : AclEntry → CString
line_text e =
    e.filename
    ++ (b'|'
        ∷ (e.owner
            ++ (b'|'
                ∷ (separated b',' e.read_users
                    ++ (b'|' ∷ (separated b',' e.write_users ++ (10 ∷ [])))))))

line_text_lem : (e : AclEntry) → entry_line e ++ (10 ∷ []) ≡ line_text e
unfolding entry_line
line_text_lem e = simp append_assoc refl

module _ (e : AclEntry) (p : IsPrintable e) where
  -- The lengths of the parts in the length of the line.
  length-entry_line :
      length (entry_line e)
      ≡ length e.filename
        + length e.owner
        + length (separated b',' e.read_users)
        + length (separated b',' e.write_users)
        + 3
  unfolding entry_line
  length-entry_line = omega (
    arith,
    length-append e.filename (
        b'|'
        ∷ (e.owner
            ++ (b'|' ∷ (separated b',' e.read_users ++ (b'|' ∷ separated b',' e.write_users))))),
    length-append e.owner
        (b'|' ∷ (separated b',' e.read_users ++ (b'|' ∷ separated b',' e.write_users))),
    length-append (separated b',' e.read_users) (b'|' ∷ separated b',' e.write_users),
  )

  pub entry_line-IsLine : IsLine max_content_len (entry_line e)
  unfolding entry_line
  entry_line-IsLine = (
    Lacks-append 10 e.filename _ p.name_line (
      refl,
      Lacks-append 10 e.owner _ p.owner_line (
        refl,
        Lacks-append 10 (separated b',' e.read_users) _ (newlines e.read_users p.readers)
            (refl, newlines e.write_users p.writers),
      ),
    ),
    omega (arith, p.line_fits),
  )

  -- The fields of the line.
  pub scan-entry_line :
      scan_fields format (entry_line e ++ (10 ∷ []))
      ≡ e.filename ∷ e.owner ∷ saved_fields e.read_users e.write_users
  scan-entry_line =
      ap (scan_fields format) (line_text_lem e)
      ∙ scan_field 255 _ e.filename _ p.named p.name_fits
      ∙ ap (λ (t : List CString). e.filename ∷ t)
          (scan_field 63 _ e.owner _ p.owned p.owner_fits
            ∙ ap (λ (t : List CString). e.owner ∷ t)
                (tail_fields e.read_users e.write_users p.readers p.writers
                  (omega (arith, length-entry_line, p.line_fits))
                  (omega (arith, length-entry_line, p.line_fits))))

  begins :
      (q : CString)
      → Lacks b'|' q
      → has_prefix q (entry_line e ++ (10 ∷ [])) ≡ has_prefix q e.filename
  begins q h = ap (has_prefix q) (line_text_lem e) ∙ has_prefix_before_bar q e.filename _ h

  -- `acl_load` takes the line for neither a comment nor the count.
  pub load_line-entry_line :
      (now : ℕ) (acl : AclTable)
      → load_line now acl (entry_line e ++ (10 ∷ []))
        ≡ load_fields now acl (e.filename ∷ e.owner ∷ saved_fields e.read_users e.write_users)
  unfolding load_line
  load_line-entry_line now acl =
      rw
        (
          begins (b'#' ∷ []) (refl, tt),
          begins (10 ∷ []) (refl, tt),
          begins count_prefix (by_test b'|' count_prefix refl),
          p.no_comment,
          p.no_count,
          no_newline e.filename p.name_line,
          scan-entry_line,
        )
        refl
