-- ===== src/Errcode.antt =====
-- middleware/common/mblue_errcode.h: the values of `mblue_errcode`, an `int` enumeration that
-- counts up from -64, closed by MBLUE_ELEMENT_EXIT and MBLUE_OK.
use mblue.Common.Int.{ℤ, pos, negsuc}

abbrev pub Errcode : Type 0
Errcode = ℤ

abbrev pub remote_call_pending : Errcode
remote_call_pending = negsuc 63

abbrev pub err_unknown : Errcode
err_unknown = negsuc 59

abbrev pub err_invalid_parameter : Errcode
err_invalid_parameter = negsuc 54

abbrev pub err_pb_encode : Errcode
err_pb_encode = negsuc 53

abbrev pub err_pb_decode : Errcode
err_pb_decode = negsuc 52

abbrev pub err_timeout : Errcode
err_timeout = negsuc 51

abbrev pub err_corrupt_mem : Errcode
err_corrupt_mem = negsuc 50

abbrev pub err_nomem : Errcode
err_nomem = negsuc 49

abbrev pub err_sysbus : Errcode
err_sysbus = negsuc 47

abbrev pub err_semaphore : Errcode
err_semaphore = negsuc 46

abbrev pub err_log_level : Errcode
err_log_level = negsuc 44

abbrev pub element_exit : Errcode
element_exit = negsuc 0

abbrev pub ok : Errcode
ok = pos 0
