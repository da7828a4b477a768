-- ===== src/Memory/BoundedRead/Growth.antt =====
-- How a result of memory/bounded-memory-read.js grows by pages and omissions.
use mathlib.Core.List.{append-nil, append_assoc}
use tavern_mnemosyne.Prelude.{◌≡◌, refl, sym, List, [], ◌∷◌, ◌++◌, Text, arith, Option, none, some}
use tavern_mnemosyne.Memory.Pages.{
  ContextPack, Entry, Omission, append_option, exhausted, with_entry, with_omission,
}

-- The cursors of the entries, in their order.
abbrev pub cursors_of : List Entry → List Text
cursors_of [] = []
cursors_of (entry ∷ entries) = append_option [] entry.continuation_cursor ++ cursors_of entries

cursors_of-append :
    (entries entries' : List Entry)
    → cursors_of (entries ++ entries') ≡ cursors_of entries ++ cursors_of entries'
cursors_of-append [] entries' = refl
cursors_of-append (entry ∷ entries) entries' =
    rw (cursors_of-append entries entries')
      (sym (append_assoc (append_option [] entry.continuation_cursor) _ _))

-- A pack that grows by entries with their cursors and by omissions only.
pub record Grown (before after : ContextPack) (entries : List Entry) (omissions : List Omission)
    : Type 0 where
  pub more_entries : after.entries ≡ before.entries ++ entries
  pub more_omissions : after.omissions ≡ before.omissions ++ omissions
  pub more_cursors : after.continuation_cursors ≡ before.continuation_cursors ++ cursors_of entries
  pub same_missing : after.missing_refs ≡ before.missing_refs
  pub same_request : after.requested_tokens ≡ before.requested_tokens

pub Grown-refl : (pack : ContextPack) → Grown pack pack [] []
Grown-refl pack = record {
  more_entries = sym (append-nil pack.entries);
  more_omissions = sym (append-nil pack.omissions);
  more_cursors = sym (append-nil pack.continuation_cursors);
  same_missing = refl;
  same_request = refl;
}

pub Grown-trans :
    (first second third : ContextPack) (entries entries' : List Entry)
    (omissions omissions' : List Omission)
    → Grown first second entries omissions
    → Grown second third entries' omissions'
    → Grown first third (entries ++ entries') (omissions ++ omissions')
Grown-trans first second third entries entries' omissions omissions' one two = record {
  more_entries =
      rw (two.more_entries, one.more_entries) (append_assoc first.entries entries entries');
  more_omissions =
      rw (two.more_omissions, one.more_omissions)
        (append_assoc first.omissions omissions omissions');
  more_cursors =
      rw (two.more_cursors, one.more_cursors, cursors_of-append entries entries')
        (append_assoc first.continuation_cursors (cursors_of entries) (cursors_of entries'));
  same_missing = ground (arith, one.same_missing, two.same_missing);
  same_request = ground (arith, one.same_request, two.same_request);
}

append_option-append :
    (cursors : List Text) (cursor : Option Text)
    → append_option cursors cursor ≡ cursors ++ (append_option [] cursor ++ [])
append_option-append cursors none = sym (append-nil cursors)
append_option-append cursors (some cursor) = refl

pub with_entry-Grown :
    (pack : ContextPack) (entry : Entry) (measured : ContextPack)
    → measured ≡ record (with_entry pack entry) { used_tokens = measured.used_tokens }
    → Grown pack measured (entry ∷ []) []
unfolding with_entry
with_entry-Grown pack entry measured e = record {
  more_entries = ground (arith, e);
  more_omissions = ground (arith, e, append-nil pack.omissions);
  more_cursors =
      ground (arith, e, append_option-append pack.continuation_cursors entry.continuation_cursor);
  same_missing = ground (arith, e);
  same_request = ground (arith, e);
}

pub with_omission-Grown :
    (pack : ContextPack) (ref : Text) (measured : ContextPack)
    → measured ≡ record (with_omission pack ref) { used_tokens = measured.used_tokens }
    → Grown pack measured [] (exhausted ref ∷ [])
unfolding with_omission
with_omission-Grown pack ref measured e = record {
  more_entries = ground (arith, e, append-nil pack.entries);
  more_omissions = ground (arith, e);
  more_cursors = ground (arith, e, append-nil pack.continuation_cursors);
  same_missing = ground (arith, e);
  same_request = ground (arith, e);
}
