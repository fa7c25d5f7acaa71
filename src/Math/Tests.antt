-- ===== src/Math/Tests.antt =====
-- The link values at concrete numbers.
use antnet.Common.{refl}
use antnet.Common.Int.{pos}
use antnet.Double.{one, ◌≺◌}
use antnet.Double.Ratio.{Ratio, ratio_double}
use antnet.Double.Ratio.Field.{Ratio-IsExact}
use antnet.Math.{link_probability}
use antnet.Math.Bounds.{link_probability-shorter}
use antnet.Fixture.{half}

abbrev two : Ratio
two = ratio_double.of_int (pos 2)

link_probability-shorter_example :
    link_probability half half two two (pos 3) ≺ link_probability half half one two (pos 3)
link_probability-shorter_example =
    link_probability-shorter Ratio-IsExact half half one two two 2 refl refl refl
