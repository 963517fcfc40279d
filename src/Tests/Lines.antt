-- ===== src/Tests/Lines.antt =====
-- Rules in one line.
use the_redirector.Base.{
  ◌≡◌, refl, false, none, some, lit, ok, pos, trim_space, split_byte, cut_byte, has_prefix,
  contains_byte, to_lower, ◌=s◌,
}
use the_redirector.Config.ShortForm.{ShortFormRule, Parsers, parse_csv_line}
use the_redirector.Config.ShortForm.Laws.{HasStatus, parse_csv_line-HasStatus}

-- Every number is 302.
abbrev parsers : Parsers
parsers = record { short_form = λ line. none; atoi = λ text. some (pos 302) }

abbrev parsed : ShortFormRule
parsed = record {
  source = lit "/o";
  destination = lit "/n";
  status = pos 302;
  preserve_path = false;
  preserve_query = false;
  host = lit "a";
}

parses : parse_csv_line parsers (lit " a:/o, /n,302") ≡ ok (some parsed)
unfolding parse_csv_line trim_space split_byte cut_byte has_prefix contains_byte to_lower ◌=s◌
parses = refl

parse_csv_line-HasStatus_example : HasStatus parsed
parse_csv_line-HasStatus_example = parse_csv_line-HasStatus parsers (lit " a:/o, /n,302") parses
