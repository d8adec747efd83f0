-- ===== src/Tests/Blocked.antt =====
-- The theorems on the file of the blocked keys, and on URIs and headers, at concrete texts.
use s3_agent.Prelude.{
  none, some, ◌≡◌, refl, false, [], ◌∷◌, ◌++◌, Text, codes, All, length, ◌<◌, arith,
}
use s3_agent.Strings.{contains, split, Lacks}
use s3_agent.S3.Signer.{authorization}
use s3_agent.S3.Manager.Blocked.{
  unblocked, block_entry, quoted, comment_line, if_line, blocked_keys, newline,
}
use s3_agent.S3.Manager.Blocked.Laws.{IsPlain, unblocked-block_entry, unblocked-contains}
use s3_agent.S3.Manager.Blocked.Listed.{IsShort, blocked_keys-block_entry}
use s3_agent.S3.Observer.Uri.{slash}
use s3_agent.S3.Observer.Audit.{parse_audit_line}
use s3_agent.S3.Observer.Audit.Signed.{AreParts, audit_line, parse_audit_line-authorization}
use s3_agent.S3.Types.{AuditEvent}
use s3_agent.Prelude.Int.{ℤ, pos}

abbrev reason : Text
reason = codes "quota"

abbrev date : Text
date = codes "today"

abbrev key : Text
key = codes "K1"

abbrev old_text : Text
old_text = codes "# none"

entry-IsPlain : IsPlain reason date key
entry-IsPlain = record {
  reason_plain = ground arith;
  date_plain = ground arith;
  key_plain = ground arith;
}

old_text_free : contains old_text (quoted key) ≡ false
unfolding contains
old_text_free = refl

comment_free : contains (comment_line reason date) (quoted key) ≡ false
unfolding contains
comment_free = refl

unblocked-block_entry_example :
    unblocked key (old_text ++ block_entry reason date key) ≡ old_text ++ newline ∷ []
unblocked-block_entry_example =
    unblocked-block_entry old_text reason date key entry-IsPlain old_text_free comment_free

key-Lacks : Lacks newline key
key-Lacks = ground arith

unblocked-contains_example : contains (unblocked key old_text) (quoted key) ≡ false
unblocked-contains_example = unblocked-contains key old_text key-Lacks

old_text-IsShort : All IsShort (split old_text newline)
unfolding split
old_text-IsShort = ground arith

comment_short : length (comment_line reason date) < 65536
comment_short = omega arith

if_short : length (if_line key) < 65536
if_short = omega arith

blocked_keys-block_entry_example :
    blocked_keys (old_text ++ block_entry reason date key) ≡ blocked_keys old_text ++ key ∷ []
blocked_keys-block_entry_example =
    blocked_keys-block_entry old_text reason date key entry-IsPlain old_text-IsShort comment_short
      if_short

access_key_no_slash : Lacks slash (codes "AK")
access_key_no_slash = ground arith

abbrev at_zero : Text → ℤ
at_zero t = pos 0

abbrev logged : Text
logged =
    audit_line (codes "1.0") (codes "PUT") (codes "/b/k") (codes "200") (codes "5") (codes "ip")
      (authorization (codes "AK") (codes "d/r") (codes "sig"))

abbrev event : AuditEvent
event = record {
  bucket = codes "b";
  object_key = codes "k";
  action = codes "PUT";
  size_bytes = pos 5;
  retain_until = none;
  access_key = codes "AK";
  client_ip = codes "ip";
  performed_at = pos 0;
}

logged_parsed : parse_audit_line at_zero logged ≡ some event
unfolding parse_audit_line s3_agent.Prelude.text_dec s3_agent.Strings.split_n
    s3_agent.Strings.Numbers.parse_int s3_agent.S3.Observer.Uri.split_bucket_key
    s3_agent.Strings.index_byte s3_agent.Strings.trim_prefix
    s3_agent.S3.Observer.Uri.extract_access_key s3_agent.Strings.index s3_agent.Strings.trim
    authorization
logged_parsed = refl

logged-AreParts :
    AreParts (codes "1.0") (codes "PUT") (codes "/b/k") (codes "200") (codes "5") (codes "ip")
logged-AreParts = ground arith

plain_key : Lacks 34 (codes "AK")
plain_key = ground arith

plain_scope : Lacks 34 (codes "d/r")
plain_scope = ground arith

plain_sig : Lacks 34 (codes "sig")
plain_sig = ground arith

parse_audit_line-authorization_example : event.access_key ≡ codes "AK"
parse_audit_line-authorization_example =
    parse_audit_line-authorization at_zero (codes "1.0") (codes "PUT") (codes "/b/k") (codes "200")
      (codes "5") (codes "ip") (codes "AK") (codes "d/r") (codes "sig") {e = event} logged-AreParts
      access_key_no_slash plain_key plain_scope plain_sig logged_parsed
