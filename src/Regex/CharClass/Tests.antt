-- ===== src/Regex/CharClass/Tests.antt =====
-- The theorems on classes at concrete classes.
use vexspoke.Base.{◌≡◌, true, false, not, arith}
use vexspoke.Regex.CharClass.{clear, add_range, add_predefined, negate, test}
use vexspoke.Regex.CharClass.Members.{clear-IsBitmap, test-add_range, test-negate}
use vexspoke.Regex.CharClass.Families.{test-add_predefined}

test-add_range_example : test (add_range clear b'a' b'f' false) b'f' ≡ true
test-add_range_example = test-add_range b'a' b'f' b'f' clear-IsBitmap (omega arith) (omega arith)

test-negate_example : test (negate clear) 7 ≡ not (test clear 7)
test-negate_example = test-negate 7 clear-IsBitmap (omega arith)

test-add_predefined_example : test (add_predefined clear b'W') b'-' ≡ true
test-add_predefined_example = test-add_predefined b'W' b'-' clear-IsBitmap (omega arith)
