-- ===== src/Errors/Names.antt =====
-- lib/ename.c.inc: the names of the error numbers.
use my_linux_programming_int.Prelude.{ℕ, List, [], ◌∷◌, Text, codes}

abbrev pub ename : List Text
ename =
    []
    ∷ codes "EPERM"
    ∷ codes "ENOENT"
    ∷ codes "ESRCH"
    ∷ codes "EINTR"
    ∷ codes "EIO"
    ∷ codes "ENXIO"
    ∷ codes "E2BIG"
    ∷ codes "ENOEXEC"
    ∷ codes "EBADF"
    ∷ codes "ECHILD"
    ∷ codes "EAGAIN/EWOULDBLOCK"
    ∷ codes "ENOMEM"
    ∷ codes "EACCES"
    ∷ codes "EFAULT"
    ∷ codes "ENOTBLK"
    ∷ codes "EBUSY"
    ∷ codes "EEXIST"
    ∷ codes "EXDEV"
    ∷ codes "ENODEV"
    ∷ codes "ENOTDIR"
    ∷ codes "EISDIR"
    ∷ codes "EINVAL"
    ∷ codes "ENFILE"
    ∷ codes "EMFILE"
    ∷ codes "ENOTTY"
    ∷ codes "ETXTBSY"
    ∷ codes "EFBIG"
    ∷ codes "ENOSPC"
    ∷ codes "ESPIPE"
    ∷ codes "EROFS"
    ∷ codes "EMLINK"
    ∷ codes "EPIPE"
    ∷ codes "EDOM"
    ∷ codes "ERANGE"
    ∷ codes "EDEADLK/EDEADLOCK"
    ∷ codes "ENAMETOOLONG"
    ∷ codes "ENOLCK"
    ∷ codes "ENOSYS"
    ∷ codes "ENOTEMPTY"
    ∷ codes "ELOOP"
    ∷ []
    ∷ codes "ENOMSG"
    ∷ codes "EIDRM"
    ∷ codes "ECHRNG"
    ∷ codes "EL2NSYNC"
    ∷ codes "EL3HLT"
    ∷ codes "EL3RST"
    ∷ codes "ELNRNG"
    ∷ codes "EUNATCH"
    ∷ codes "ENOCSI"
    ∷ codes "EL2HLT"
    ∷ codes "EBADE"
    ∷ codes "EBADR"
    ∷ codes "EXFULL"
    ∷ codes "ENOANO"
    ∷ codes "EBADRQC"
    ∷ codes "EBADSLT"
    ∷ []
    ∷ codes "EBFONT"
    ∷ codes "ENOSTR"
    ∷ codes "ENODATA"
    ∷ codes "ETIME"
    ∷ codes "ENOSR"
    ∷ codes "ENONET"
    ∷ codes "ENOPKG"
    ∷ codes "EREMOTE"
    ∷ codes "ENOLINK"
    ∷ codes "EADV"
    ∷ codes "ESRMNT"
    ∷ codes "ECOMM"
    ∷ codes "EPROTO"
    ∷ codes "EMULTIHOP"
    ∷ codes "EDOTDOT"
    ∷ codes "EBADMSG"
    ∷ codes "EOVERFLOW"
    ∷ codes "ENOTUNIQ"
    ∷ codes "EBADFD"
    ∷ codes "EREMCHG"
    ∷ codes "ELIBACC"
    ∷ codes "ELIBBAD"
    ∷ codes "ELIBSCN"
    ∷ codes "ELIBMAX"
    ∷ codes "ELIBEXEC"
    ∷ codes "EILSEQ"
    ∷ codes "ERESTART"
    ∷ codes "ESTRPIPE"
    ∷ codes "EUSERS"
    ∷ codes "ENOTSOCK"
    ∷ codes "EDESTADDRREQ"
    ∷ codes "EMSGSIZE"
    ∷ codes "EPROTOTYPE"
    ∷ codes "ENOPROTOOPT"
    ∷ codes "EPROTONOSUPPORT"
    ∷ codes "ESOCKTNOSUPPORT"
    ∷ codes "EOPNOTSUPP/ENOTSUP"
    ∷ codes "EPFNOSUPPORT"
    ∷ codes "EAFNOSUPPORT"
    ∷ codes "EADDRINUSE"
    ∷ codes "EADDRNOTAVAIL"
    ∷ codes "ENETDOWN"
    ∷ codes "ENETUNREACH"
    ∷ codes "ENETRESET"
    ∷ codes "ECONNABORTED"
    ∷ codes "ECONNRESET"
    ∷ codes "ENOBUFS"
    ∷ codes "EISCONN"
    ∷ codes "ENOTCONN"
    ∷ codes "ESHUTDOWN"
    ∷ codes "ETOOMANYREFS"
    ∷ codes "ETIMEDOUT"
    ∷ codes "ECONNREFUSED"
    ∷ codes "EHOSTDOWN"
    ∷ codes "EHOSTUNREACH"
    ∷ codes "EALREADY"
    ∷ codes "EINPROGRESS"
    ∷ codes "ESTALE"
    ∷ codes "EUCLEAN"
    ∷ codes "ENOTNAM"
    ∷ codes "ENAVAIL"
    ∷ codes "EISNAM"
    ∷ codes "EREMOTEIO"
    ∷ codes "EDQUOT"
    ∷ codes "ENOMEDIUM"
    ∷ codes "EMEDIUMTYPE"
    ∷ codes "ECANCELED"
    ∷ codes "ENOKEY"
    ∷ codes "EKEYEXPIRED"
    ∷ codes "EKEYREVOKED"
    ∷ codes "EKEYREJECTED"
    ∷ codes "EOWNERDEAD"
    ∷ codes "ENOTRECOVERABLE"
    ∷ codes "ERFKILL"
    ∷ codes "EHWPOISON"
    ∷ []

abbrev pub max_ename : ℕ
max_ename = 133
